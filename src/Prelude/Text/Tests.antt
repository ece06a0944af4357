-- ===== src/Prelude/Text/Tests.antt =====
-- Tests of the string functions.
use mathlib.Core.List.{[], ◌∷◌}
use mathlib.Core.Path.{◌≡◌, refl}
use mathlib.Core.Bool.{true, false}
use mathlib.Core.Option.{none, some}
use github_action_runners_mu.Prelude.Int.{pos, negsuc}
use github_action_runners_mu.Prelude.Text.{
  to_lower_case, split, trim, includes, show, parse_int, parse_int_or, lower_char,
}

split_test : split b',' "a, b,,c" ≡ "a" ∷ " b" ∷ "" ∷ "c" ∷ []
unfolding split
split_test = refl

trim_test : trim "  a b  " ≡ "a b"
unfolding trim
trim_test = refl

includes_test : (includes "https://github.com" "hub" ≡ true) × (includes "abc" "ac" ≡ false)
unfolding includes
includes_test = (refl, refl)

show_test : (show 0 ≡ "0") × (show 1024 ≡ "1024")
unfolding show
show_test = (refl, refl)

lower_test : to_lower_case (λ c. "?") "AbZ-9" ≡ "abz-9"
unfolding to_lower_case lower_char
lower_test = refl

parse_int_test :
    (parse_int " -12px" ≡ some (negsuc 11))
    × (parse_int "0x1F" ≡ some (pos 31))
    × (parse_int "1e3" ≡ some (pos 1))
    × (parse_int "abc" ≡ none)
    × (parse_int_or "0" 1 ≡ pos 1)
unfolding parse_int parse_int_or
parse_int_test = (refl, refl, refl, refl, refl)
