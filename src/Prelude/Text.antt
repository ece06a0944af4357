-- ===== src/Prelude/Text.antt =====
-- The string functions of the JavaScript library that the program calls, over native texts (lists
-- of code points).
mod Tests
pub mod Search
pub mod Uri
use Prim.Native.Nat.{ℕ, zero, suc, ◌+◌, ◌-◌, ◌*◌, ◌/◌, ◌%◌, compare, Ordering}
use Prim.Native.Char.{Char, code}
use Prim.Native.String.{String, [], ◌∷◌, ◌++◌ as ◌<>◌, char_at}
use mathlib.Core.Bool.{Bool, true, false, ◌&&◌, ◌||◌}
use mathlib.Core.Option.{Option, none, some}
use mathlib.Core.List
use mathlib.Core.List.{List}
use github_action_runners_mu.Prelude.Tests.{leb, ltb, if◌then◌else◌}
use github_action_runners_mu.Prelude.Int.{ℤ, pos, neg}

-- Equality of code points.
abbrev pub code_is : ℕ → Char → Bool
code_is n c = elim (compare (code c) n) [ Ordering.eq ↦ true | _ ↦ false ]

abbrev pub between : ℕ → ℕ → Char → Bool
between lo hi c = leb lo (code c) && leb (code c) hi

-- The letter at a place of the alphabet.
abbrev pub letter : ℕ → Char
letter i = char_at "abcdefghijklmnopqrstuvwxyz" i

-- One character of `toLowerCase`: the ASCII letters as the standard says, the rest of Unicode by
-- the table `lower`, which maps a character that is not ASCII to a text.
unfoldable pub lower_char : (Char → String) → Char → String
lower_char lower c =
    if between b'A' b'Z' c
    then letter (code c - b'A') ∷ []
    else if ltb (code c) 128
    then c ∷ []
    else lower c

-- `s.toLowerCase()`
unfoldable pub to_lower_case : (Char → String) → String → String
to_lower_case lower [] = ""
to_lower_case lower (c ∷ s) = lower_char lower c <> to_lower_case lower s

abbrev pub cons_head : Char → List String → List String
cons_head c List.[] = List.◌∷◌ (c ∷ []) List.[]
cons_head c (List.◌∷◌ p ps) = List.◌∷◌ (c ∷ p) ps

-- `s.split(sep)` at a separator of one character.
unfoldable pub split : ℕ → String → List String
split sep [] = List.◌∷◌ "" List.[]
split sep (c ∷ s) =
    let rest = split sep s in if code_is sep c then List.◌∷◌ "" rest else cons_head c rest

-- The white space and line terminators of ECMAScript.
unfoldable pub is_space : Char → Bool
is_space c =
    between 9 13 c
    || code_is 32 c
    || code_is 160 c
    || code_is 5760 c
    || between 8192 8202 c
    || between 8232 8233 c
    || code_is 8239 c
    || code_is 8287 c
    || code_is 12288 c
    || code_is 65279 c

unfoldable pub trim_start : String → String
trim_start [] = ""
trim_start (c ∷ s) = let rest = trim_start s in if is_space c then rest else c ∷ s

abbrev pub keep_end : Bool → Char → String → String
keep_end true c [] = ""
keep_end true c (d ∷ s) = c ∷ d ∷ s
keep_end false c s = c ∷ s

unfoldable pub trim_end : String → String
trim_end [] = ""
trim_end (c ∷ s) = keep_end (is_space c) c (trim_end s)

-- `s.trim()`
unfoldable pub trim : String → String
unfolding trim_start trim_end is_space
trim s = trim_start (trim_end s)

-- `s.startsWith(t)`, the text first
unfoldable pub starts_with : String → String → Bool
starts_with s [] = true
starts_with [] (d ∷ t) = false
starts_with (c ∷ s) (d ∷ t) = code_is (code d) c && starts_with s t

-- `s.includes(t)`
unfoldable pub includes : String → String → Bool
unfolding starts_with
includes [] t = starts_with "" t
includes (c ∷ s) t = starts_with (c ∷ s) t || includes s t

-- A number in a template, `${n}`: the digits, on fuel. A number has fewer digits than its value.
show_from : ℕ → ℕ → String → String
show_from zero n acc = acc
show_from (suc f) n acc =
    let acc' = char_at "0123456789" (n % 10) ∷ acc in
    let more = show_from f (n / 10) acc' in if ltb n 10 then acc' else more

unfoldable pub show : ℕ → String
unfolding show_from
show n = show_from (suc n) n ""

-- The digits that `parseInt` reads in a radix, up to the first character that is none.
abbrev pub digit? : ℕ → Char → Option ℕ
digit? radix c =
    if between b'0' b'9' c
    then some (code c - b'0')
    else if ltb 10 radix && between b'a' b'f' c
    then some (code c - 87)
    else if ltb 10 radix && between b'A' b'F' c
    then some (code c - 55)
    else none

unfoldable pub digits : ℕ → ℕ → String → ℕ
digits radix acc [] = acc
digits radix acc (c ∷ s) = elim (digit? radix c) [
  | none ↦ acc
  | some d ↦ digits radix (acc * radix + d) s
]

abbrev pub number : ℕ → String → Option ℕ
number radix [] = none
number radix (c ∷ s) = elim (digit? radix c) [ none ↦ none | some d ↦ some (digits radix d s) ]

-- The number after the sign: hexadecimal behind `0x` or `0X`, else decimal.
abbrev pub magnitude : String → Option ℕ
magnitude (z ∷ x ∷ s) =
    if code_is b'0' z && (code_is b'x' x || code_is b'X' x)
    then number 16 s
    else number 10 (z ∷ x ∷ s)
magnitude s = number 10 s

abbrev pub signed : (ℕ → ℤ) → Option ℕ → Option ℤ
signed f none = none
signed f (some n) = some (f n)

abbrev pub parse_signed : String → Option ℤ
parse_signed [] = none
parse_signed (c ∷ s) =
    if code_is b'-' c
    then signed neg (magnitude s)
    else if code_is b'+' c
    then signed pos (magnitude s)
    else signed pos (magnitude (c ∷ s))

-- `parseInt(s)`, where `none` is NaN. The rounding of numbers above 2^53 is left out.
unfoldable pub parse_int : String → Option ℤ
unfolding trim_start is_space digits
parse_int s = parse_signed (trim_start s)

-- `parseInt(s) || d`: NaN and 0 are falsy.
unfoldable pub parse_int_or : String → ℕ → ℤ
parse_int_or s d = elim (parse_int s) [
  | none ↦ pos d
  | some n ↦ elim n [
    | ℤ.pos k ↦ elim k [ zero ↦ pos d | suc m ↦ pos (suc m) ]
    | ℤ.negsuc k ↦ ℤ.negsuc k
  ]
]
