-- ===== src/Prelude/Text/Uri.antt =====
-- `encodeURIComponent`: the bytes of the text's UTF-8, each that is no unreserved character as `%`
-- and two hexadecimal digits.
use Prim.Native.Nat.{ℕ, zero, suc, ◌+◌, ◌/◌, ◌%◌}
use Prim.Native.Char.{Char, code}
use Prim.Native.String.{String, [], ◌∷◌, ◌++◌ as ◌<>◌}
use mathlib.Core.Bool.{Bool, ◌||◌}
use github_action_runners_mu.Prelude.Tests.{ltb, if◌then◌else◌}
use github_action_runners_mu.Prelude.Text.{code_is, between}

-- Letters, digits and - _ . ! ~ * ' ( )
abbrev pub is_unreserved : Char → Bool
is_unreserved c =
    between b'a' b'z' c
    || between b'A' b'Z' c
    || between b'0' b'9' c
    || code_is b'-' c
    || code_is b'_' c
    || code_is b'.' c
    || code_is b'!' c
    || code_is b'~' c
    || between 39 42 c

-- The character at a position, and the last one beyond the end.
unfoldable pub nth : Char → String → ℕ → Char
nth d [] i = d
nth d (c ∷ s) zero = c
nth d (c ∷ s) (suc i) = nth c s i

abbrev pub hex : ℕ → Char
hex n = nth "0" "0123456789ABCDEF" n

-- One byte, escaped.
unfoldable pub escape : ℕ → String
unfolding nth
escape b = "%" <> (hex (b / 16 % 16) ∷ hex (b % 16) ∷ [])

-- The UTF-8 bytes of a code point, escaped.
unfoldable pub escape_code : ℕ → String
unfolding escape
escape_code n =
    if ltb n 128
    then escape n
    else if ltb n 2048
    then escape (192 + n / 64) <> escape (128 + n % 64)
    else if ltb n 65536
    then escape (224 + n / 4096) <> (escape (128 + n / 64 % 64) <> escape (128 + n % 64))
    else escape (240 + n / 262144)
      <> (escape (128 + n / 4096 % 64) <> (escape (128 + n / 64 % 64) <> escape (128 + n % 64)))

unfoldable pub encode_uri_component : String → String
unfolding escape_code
encode_uri_component [] = ""
encode_uri_component (c ∷ s) =
    (if is_unreserved c then c ∷ [] else escape_code (code c)) <> encode_uri_component s
