-- ===== src/AddRunner/Name.antt =====
-- The name helpers at the top of web/src/pages/AddRunner.tsx. The regular expressions are written
-- out as recursions on the text; `lower` is the part of Unicode's lower-case table beyond ASCII.
pub mod Laws
pub mod Slug
use Prim.Native.String.{[], ◌∷◌}
use github_action_runners_mu.Prelude.{
  ℕ, Char, String, ◌<>◌, Bool, true, false, ◌&&◌, ◌||◌, if◌then◌else◌, truthy,
}
use github_action_runners_mu.Prelude.Text.{code_is, between, to_lower_case}
use github_action_runners_mu.Api.Types.{AdminRepo}

-- `[a-z0-9_-]`
unfoldable pub is_dash : Char → Bool
is_dash c = code_is b'-' c

unfoldable pub is_allowed : Char → Bool
unfolding is_dash
is_allowed c = between b'a' b'z' c || between b'0' b'9' c || code_is b'_' c || is_dash c

abbrev pub dash : Char
dash = "-"

-- `.replace(/[^a-z0-9_-]/g, "-")`
unfoldable pub replace_disallowed : String → String
replace_disallowed [] = ""
replace_disallowed (c ∷ s) = (if is_allowed c then c else dash) ∷ replace_disallowed s

abbrev pub starts_dash : String → Bool
starts_dash [] = false
starts_dash (c ∷ s) = is_dash c

-- `.replace(/-+/g, "-")`: of each run of dashes one is left.
unfoldable pub collapse_dashes : String → String
collapse_dashes [] = ""
collapse_dashes (c ∷ s) =
    let rest = collapse_dashes s in if is_dash c && starts_dash s then rest else c ∷ rest

-- `.replace(/^-|-$/g, "")`: one dash at the start, and one at the end.
unfoldable pub strip_first : String → String
strip_first [] = ""
strip_first (c ∷ s) = if is_dash c then s else c ∷ s

unfoldable pub strip_last : String → String
strip_last [] = ""
strip_last (c ∷ []) = if is_dash c then "" else c ∷ []
strip_last (c ∷ d ∷ s) = c ∷ strip_last (d ∷ s)

unfoldable pub sanitize_name : (Char → String) → String → String
sanitize_name lower name =
    strip_last (strip_first (collapse_dashes (replace_disallowed (to_lower_case lower name))))

abbrev pub all_allowed : String → Bool
all_allowed [] = true
all_allowed (c ∷ s) = is_allowed c && all_allowed s

-- `/^[a-z0-9_-]+$/.test(name)`
unfoldable pub is_valid_name : String → Bool
is_valid_name [] = false
is_valid_name (c ∷ s) = all_allowed (c ∷ s)

-- `random_id` is what `Math.random().toString(36).substring(2, 8)` gives.
unfoldable pub generate_name : (Char → String) → String → AdminRepo → String
generate_name lower random_id repo =
    if truthy repo.repo
    then sanitize_name lower repo.owner
      <> ("-" <> (sanitize_name lower repo.repo <> ("-" <> random_id)))
    else sanitize_name lower repo.owner <> ("-" <> random_id)
