-- ===== src/AddRunner/Naming.antt =====
-- The runner's name in the form of web/src/pages/AddRunner.tsx: what is proposed, shown and
-- checked. `parse_url` is `new URL(…)`.
pub mod Laws
use github_action_runners_mu.Prelude.{
  Char, String, ◌<>◌, Bool, true, false, ◌&&◌, not, List, [], ◌∷◌, Option, none, some, truthy,
  if◌then◌else◌, ◌==◌,
}
use github_action_runners_mu.Api.Types.{AdminRepo}
use github_action_runners_mu.Browser.Url.{Url, path_parts}
use github_action_runners_mu.AddRunner.Name.{sanitize_name, is_valid_name}
use github_action_runners_mu.AddRunner.Form.{Form}
use github_action_runners_mu.AddRunner.Modes.{is_batch, single_repo}

abbrev scope_of_parts : List String → String
scope_of_parts [] = "Unknown"
scope_of_parts (_ ∷ []) = "Organization"
scope_of_parts (_ ∷ _ ∷ _) = "Repository"

abbrev base_of_parts : (Char → String) → List String → Option String
base_of_parts lower [] = none
base_of_parts lower (p ∷ []) = some (sanitize_name lower p)
base_of_parts lower (p ∷ q ∷ _) = some (sanitize_name lower (p <> ("-" <> q)))

module _ (parse_url : String → Option Url) where
  -- `getScope`; `none` is null.
  unfoldable pub get_scope : String → Option String
  get_scope url = elim (parse_url url) [
    | none ↦ none
    | some u ↦ some (scope_of_parts (path_parts u))
  ]

  module _ (lower : Char → String) (f : Form) where
    -- `nameBase`
    unfoldable pub name_base : Option String
    name_base = elim (single_repo f.selected_repos) [
      | none ↦ none
      | some r ↦ elim (parse_url r.url) [
        | none ↦ none
        | some u ↦ base_of_parts lower (path_parts u)
      ]
    ]

    -- `nameBase ? … : name`: null and "" are falsy.
    abbrev auto_name : Option String → String
    auto_name none = f.name
    auto_name (some base) = if truthy base then base <> ("-" <> f.random_id) else f.name

    -- `displayName`
    unfoldable pub display_name : String
    unfolding name_base
    display_name =
        if is_batch f.selected_repos
        then ""
        else if f.name_manually_edited
        then f.name
        else auto_name name_base

-- `isNameInvalid`
unfoldable pub is_name_invalid : Form → Bool
is_name_invalid f =
    not (is_batch f.selected_repos)
    && f.name_manually_edited
    && not (f.name == "")
    && not (is_valid_name f.name)
