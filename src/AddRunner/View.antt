-- ===== src/AddRunner/View.antt =====
-- What the form of web/src/pages/AddRunner.tsx shows: the texts, badges, switches and hints that
-- depend on its state. Layout and fixed texts are left out.
pub mod Laws
use github_action_runners_mu.Prelude.{
  ℕ, Char, String, ◌<>◌, Bool, true, false, ◌&&◌, ◌||◌, not, List, [], ◌∷◌, map, Option, none, some,
  length, any, is_empty, contains, ltb, truthy, if◌then◌else◌,
}
use github_action_runners_mu.Prelude.Text.{show, code_is}
use github_action_runners_mu.Api.Types.{AdminRepo, RunnerStatus}
use github_action_runners_mu.Browser.Url.{Url}
use github_action_runners_mu.Browser.Sets.{get}
use github_action_runners_mu.AddRunner.Form.{
  Mode, standalone, scaleset, mode_text, PatType, classic, fine_grained, GuideOwner, Form,
}
use github_action_runners_mu.AddRunner.Modes.{
  is_batch, modes_of, scope_mode_map, conflicts, single_scope_modes, is_single_maximized,
  display_mode, ignored_scopes, submit_repos,
}
use github_action_runners_mu.AddRunner.Naming.{get_scope, display_name, name_base, is_name_invalid}
use github_action_runners_mu.AddRunner.Pats.{PatInput, pat_inputs}

-- One selected scope, with its badges in the order of the page.
pub record Row : Type 0 where
  pub scope : Option String
  pub url : String
  pub has_standalone : Bool
  pub has_scaleset : Bool
  pub is_maximized : Bool
  pub will_be_ignored : Bool

-- The name input, with "Reset to auto" and the message beside "Fix format".
pub record NameInput : Type 0 where
  pub value : String
  pub placeholder : String
  pub is_disabled : Bool
  pub shows_reset : Bool
  pub shows_batch_hint : Bool
  pub shows_fix : Bool

pub data GroupView : Type 0 where
  group_input : String → GroupView
  only_organizations : GroupView
  nothing : GroupView

-- A token input, its value, and what "How to create a PAT" opens.
pub record TokenInput : Type 0 where
  pub input : PatInput
  pub placeholder : String
  pub value : String
  pub guide : GuideOwner

-- The part of the form for the mode; the scale set mode also has the input for the maximum.
pub data ModeFields : Type 0 where
  standalone_hint : ModeFields
  scaleset_fields : PatType → List TokenInput → ModeFields

-- `someOrgScope`
unfoldable pub some_org_scope : List AdminRepo → Bool
some_org_scope selected_repos =
    ltb 0 (length selected_repos) && any (λ r. not (truthy r.repo)) selected_repos

unfoldable pub group_view : Form → GroupView
unfolding some_org_scope
group_view f =
    if some_org_scope f.selected_repos
    then group_input f.group
    else if ltb 0 (length f.selected_repos)
    then only_organizations
    else nothing

abbrev or_empty : Option String → String
or_empty none = ""
or_empty (some s) = s

-- `input.label.split(" (")[0]` is the owner's name in a label `owner (host)`, unless the owner's
-- name itself holds " (".
abbrev starts_paren : String → Bool
starts_paren String.[] = false
starts_paren (String.◌∷◌ c String.[]) = false
starts_paren (String.◌∷◌ c (String.◌∷◌ d s)) = code_is b' ' c && code_is b'(' d

unfoldable pub before_paren : String → String
before_paren String.[] = ""
before_paren (String.◌∷◌ c s) =
    let rest = before_paren s in if starts_paren (String.◌∷◌ c s) then "" else String.◌∷◌ c rest

unfoldable pub token_input : PatType → List (String × String) → PatInput → TokenInput
unfolding before_paren
token_input classic pats input = record {
  input = input;
  placeholder = "ghp_...";
  value = or_empty (get input.key pats);
  guide = record { host = input.host; owner = ""; scope_type = input.scope_type };
}
token_input fine_grained pats input = record {
  input = input;
  placeholder = "github_pat_...";
  value = or_empty (get input.key pats);
  guide = record {
    host = input.host;
    owner = before_paren input.label;
    scope_type = input.scope_type;
  };
}

abbrev has_base : Option String → Bool
has_base none = false
has_base (some base) = truthy base

module _ (parse_url : String → Option Url) (existing : Option (List RunnerStatus)) (f : Form) where
  unfoldable pub row : AdminRepo → Row
  row r =
      let modes = modes_of r.url (scope_mode_map existing) in
      record {
        scope = get_scope parse_url r.url;
        url = r.url;
        has_standalone = contains modes "standalone";
        has_scaleset = contains modes "scaleset";
        is_maximized = contains modes "standalone" && contains modes "scaleset";
        will_be_ignored = is_batch f.selected_repos && contains modes (mode_text f.mode);
      }

  -- The list under the selection button, and the count of ignored scopes under the list.
  unfoldable pub selection_view : String × List Row × Option String
  unfolding row
  selection_view =
      let ignored = ignored_scopes existing f.selected_repos f.mode in
      (
        (if ltb 0 (length f.selected_repos)
            then show (length f.selected_repos) <> " selected — click to modify"
            else "Select repositories/organizations…"),
        map row f.selected_repos,
        (if is_batch f.selected_repos && ltb 0 (length ignored)
            then some (
                show (length ignored)
                <> (" of "
                    <> (show (length f.selected_repos)
                        <> (" scope(s) will be ignored (already have "
                            <> (mode_text f.mode <> ").")))))
            else none),
      )

  -- `disabled` of an item of the mode toggle
  unfoldable pub mode_item_disabled : Mode → Bool
  mode_item_disabled m =
      not (is_batch f.selected_repos)
      && contains (single_scope_modes existing f.selected_repos f.mode) (mode_text m)

  -- The text under the mode toggle.
  unfoldable pub mode_hint : String
  mode_hint =
      if is_single_maximized existing f.selected_repos f.mode
      then "This scope already has both standalone and scaleset runners. Remove one before adding a new runner."
      else elim (display_mode existing f.selected_repos f.mode) [
        | standalone ↦
            "Uses short-lived registration tokens (auto-generated via OAuth). Best for isolation and strict compliance."
        | scaleset ↦ "Uses long-lived PATs. Scales runner dynamically based on job demands."
      ]

  unfoldable pub name_input : (Char → String) → NameInput
  name_input lower = record {
    value = if is_batch f.selected_repos then "" else display_name parse_url lower f;
    placeholder =
        if is_batch f.selected_repos
        then "Auto-generated (batch mode)"
        else "Auto-generated from URL";
    is_disabled = is_batch f.selected_repos || is_empty f.selected_repos;
    shows_reset =
        not (is_batch f.selected_repos)
        && f.name_manually_edited
        && has_base (name_base parse_url lower f);
    shows_batch_hint = is_batch f.selected_repos;
    shows_fix = is_name_invalid f;
  }

  unfoldable pub mode_fields : ModeFields
  mode_fields = elim (display_mode existing f.selected_repos f.mode) [
    | standalone ↦ standalone_hint
    | scaleset ↦
        scaleset_fields f.pat_type
          (map (token_input f.pat_type f.pats) (pat_inputs f.pat_type f.selected_repos))
  ]

  -- `disabled` of the submit button
  unfoldable pub submit_disabled : Bool
  submit_disabled =
      f.loading
      || is_empty f.selected_repos
      || is_name_invalid f
      || is_single_maximized existing f.selected_repos f.mode
      || (is_batch f.selected_repos && is_empty (submit_repos existing f.selected_repos f.mode))

  -- The text of the submit button.
  unfoldable pub submit_text : String
  submit_text =
      if f.loading
      then "Starting Runner(s)..."
      else "Save and Start Runner" <> (if is_batch f.selected_repos then "s" else "")
