-- ===== src/Server/Unary.antt =====
-- Integers written with strokes: a concrete pair of functions for the tests of Limits, where Go's
-- strconv stands.
use Prim.Native.String.{[], ◌∷◌, char_at}
use github_action_runners_mu.Prelude.{
  ℕ, zero, suc, String, Option, none, some, ◌≡◌, refl, ap, if◌then◌else◌,
}
use github_action_runners_mu.Prelude.Int.{ℤ, pos, negsuc}
use github_action_runners_mu.Prelude.Text.{code_is}

abbrev strokes : ℕ → String
strokes zero = ""
strokes (suc n) = char_at "1" 0 ∷ strokes n

abbrev stroke_count : String → ℕ
stroke_count [] = 0
stroke_count (c ∷ s) = suc (stroke_count s)

abbrev pub write : ℤ → String
write (pos n) = char_at "+" 0 ∷ strokes n
write (negsuc n) = char_at "-" 0 ∷ strokes n

abbrev pub read : String → Option ℤ
read [] = none
read (c ∷ s) = some (if code_is b'-' c then negsuc (stroke_count s) else pos (stroke_count s))

counted : (n : ℕ) → stroke_count (strokes n) ≡ n
counted zero = refl
counted (suc n) = ap suc (counted n)

pub read-write : (n : ℤ) → read (write n) ≡ some n
read-write (pos n) = ap (λ m. some (pos m)) (counted n)
read-write (negsuc n) = ap (λ m. some (negsuc m)) (counted n)
