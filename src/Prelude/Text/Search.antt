-- ===== src/Prelude/Text/Search.antt =====
-- `startsWith` and `includes` as statements about concatenation.
use Prim.Native.Char.{Char, code}
use Prim.Native.String.{String, [], ◌∷◌, ◌++◌ as ◌<>◌}
use mathlib.Core.Bool.{true, false≢true}
use mathlib.Core.Path.{◌≡◌, refl, sym, ◌∙◌}
use mathlib.Core.Logic.{◌↔◌, inl, inr}
use native.Mathlib.Omega.{arith}
use text.Mathlib.TextLemmas.{cons-append, nil-append}
use text.Mathlib.TextEquality.{Char-path}
use github_action_runners_mu.Prelude.Tests.{Bool-cases}
use github_action_runners_mu.Prelude.Text.{code_is, starts_with, includes}

code_is-eq : (c d : Char) → code_is (code d) c ≡ true → c ≡ d
code_is-eq c d h = Char-path c d (ground (arith, h))

code_is_refl : (c : Char) → code_is (code c) c ≡ true
code_is_refl c = ground arith

starts_with_of : (s t : String) → starts_with s t ≡ true → (b : String) × (s ≡ t <> b)
unfolding starts_with
starts_with_of [] [] h = ("", sym (nil-append ""))
starts_with_of (c ∷ s) [] h = (c ∷ s, sym (nil-append (c ∷ s)))
starts_with_of [] (d ∷ t) h = absurd (false≢true h)
starts_with_of (c ∷ s) (d ∷ t) h =
    let (b, e) = starts_with_of s t (ground (arith, h)) in
    let same : c ≡ d = code_is-eq c d (ground (arith, h)) in
    (b, rw (cons-append d t b, same, e) refl)

starts_with_nil : (s : String) → starts_with s "" ≡ true
unfolding starts_with
starts_with_nil [] = refl
starts_with_nil (c ∷ s) = refl

starts_with-append : (t b : String) → starts_with (t <> b) t ≡ true
unfolding starts_with
starts_with-append [] b = starts_with_nil ("" <> b)
starts_with-append (c ∷ t) b =
    rw (cons-append c t b, code_is_refl c, starts_with) (starts_with-append t b)

includes_prefix : (s t : String) → starts_with s t ≡ true → includes s t ≡ true
unfolding includes
includes_prefix [] t h = h
includes_prefix (c ∷ s) t h = rw h refl

includes-append : (a t b : String) → includes (a <> (t <> b)) t ≡ true
unfolding includes
includes-append [] t b =
    rw (nil-append (t <> b)) (includes_prefix (t <> b) t (starts_with-append t b))
includes-append (c ∷ a) t b = rw (cons-append c a (t <> b)) (ground (arith, includes-append a t b))

includes_of : (s t : String) → includes s t ≡ true → (a b : String) × (s ≡ a <> (t <> b))
unfolding includes
includes_of [] t h = let (b, e) = starts_with_of "" t h in ("", b, e ∙ sym (nil-append (t <> b)))
includes_of (c ∷ s) t h = elim (Bool-cases (starts_with (c ∷ s) t)) [
  | inl y ↦ let (b, e) = starts_with_of (c ∷ s) t y in ("", b, e ∙ sym (nil-append (t <> b)))
  | inr n ↦
      let (a, b, e) = includes_of s t (ground (arith, h, n)) in
      (c ∷ a, b, rw (cons-append c a (t <> b), e) refl)
]

-- A text includes another exactly if it is that one between two texts.
pub includes_iff : (s t : String) → (includes s t ≡ true) ↔ ((a b : String) × (s ≡ a <> (t <> b)))
includes_iff s t = (includes_of s t, (λ (a, b, e). rw e (includes-append a t b)))
