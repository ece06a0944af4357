-- ===== src/AddRunner/Tests.antt =====
-- Runs of the form of web/src/pages/AddRunner.tsx on concrete inputs.
mod Names
mod Submits
use github_action_runners_mu.Prelude.{
  Bool, ◌<◌, sym, ap, ◌≢◌, ◌↔◌, ◌⊎◌, false, not, map, ◌==◌, filter, is_empty, contains, All, truthy,
  ℕ, Char, String, ◌≡◌, refl, inr, true, Option, none, some, List, ◌∷◌, text_dec, [],
}
use github_action_runners_mu.AddRunner.View.{
  some_org_scope, group_view, selection_view, name_input, submit_text, before_paren, token_input,
  row, submit_disabled, mode_item_disabled, mode_fields, mode_hint, group_input, only_organizations,
  standalone_hint,
}
use github_action_runners_mu.AddRunner.Pats.{
  owner_types, pat_guide_scope_types, get_pat_key, pat_input, inputs_from, pat_inputs,
}
use mathlib.Core.Bool.{false≢true}
use github_action_runners_mu.Browser.Sets.{Nodup, add, get, put}
use github_action_runners_mu.Api.Types.{RunnerStatus, AdminRepo}
use github_action_runners_mu.Api.Client.{
  Reason, Settled, rejected, Request, Fetched, add_runner, parsed, response,
}
use github_action_runners_mu.AddRunner.Name.{
  is_dash, is_allowed, replace_disallowed, collapse_dashes, strip_first, strip_last, sanitize_name,
  is_valid_name, generate_name,
}
use github_action_runners_mu.AddRunner.Name.Slug.{word_free, IsSlug}
use github_action_runners_mu.AddRunner.Name.Laws.{
  sanitize_name-eq-nil_iff, is_valid_name-generate_name, sanitize_name-fixed_iff,
}
use github_action_runners_mu.AddRunner.Form.{
  classic, fine_grained, Form, initial, Input, handle, handle_all, scaleset,
}
use github_action_runners_mu.AddRunner.Modes.Laws.{has_runner, submit_repos_lem, loaded, KnownModes}
use github_action_runners_mu.AddRunner.Naming.Laws.{
  handle_submit-valid_names, display_name-ne-runner_name,
}
use github_action_runners_mu.AddRunner.Pats.Laws.{keys, has_key, pat_inputs-keys}
use github_action_runners_mu.AddRunner.Submit.{
  to_runner, missing_pat, split_labels, runner_name, payload, payloads, settle_all, succeeded,
  failed, report, send, pats_checked, check_pats, check_ignored, handle_submit,
}
use github_action_runners_mu.AddRunner.Submit.Laws.{IsSettled, handle_submit-IsSettled}
use github_action_runners_mu.AddRunner.Submit.Tokens.{
  PatFits, handle_submit_no_duplicate, handle_submit-PatFits,
}
use github_action_runners_mu.AddRunner.Submit.Reports.{report_navigation}
use github_action_runners_mu.AddRunner.View.Laws.{submit_enabled_sends}
use github_action_runners_mu.Prelude.Int.{pos}
use github_action_runners_mu.Prelude.Text.{lower_char, to_lower_case, split, trim, show}
use github_action_runners_mu.Browser.Effects.{Toast}
use github_action_runners_mu.Browser.Url.{Url}
use github_action_runners_mu.AddRunner.Modes.{
  add_mode, add_runners, scope_mode_map, conflicts, single_scope_modes, is_single_maximized,
  is_single_mode_disabled, effective_mode, display_mode, ignored_scopes, submit_repos, modes_of,
}
use github_action_runners_mu.AddRunner.Naming.{get_scope, name_base, display_name, is_name_invalid}

pub run : Unit {0}
unfolding sanitize_name to_lower_case lower_char replace_disallowed collapse_dashes strip_first
    strip_last is_allowed is_dash is_valid_name generate_name handle handle_all modes_of add_mode
    add_runners scope_mode_map add single_scope_modes is_single_maximized is_single_mode_disabled
    effective_mode display_mode ignored_scopes submit_repos conflicts get_scope name_base
    display_name is_name_invalid get_pat_key pat_input inputs_from pat_inputs missing_pat
    split_labels runner_name payload payloads settle_all succeeded failed report send pats_checked
    check_pats check_ignored handle_submit add_runner split trim show get put text_dec row
    mode_item_disabled submit_disabled before_paren token_input
run = tt

abbrev pub no_lower : Char → String
no_lower c = "?"

abbrev pub fixed_ids : ℕ → String
fixed_ids i = "k3x9ab"

-- Every request is answered with a good response.
abbrev pub all_good : ℕ → Request → Fetched (Unit {0})
all_good i q = response (record {
  is_ok = true;
  json = parsed tt;
  error_json = parsed (record { error = none; runner_name = none });
})

abbrev pub at_repo : String → Option Url
at_repo url = some (record { host = "github.com"; pathname = "/acme/app" })

abbrev pub app : AdminRepo
app = record {
  host = "github.com";
  owner = "acme";
  repo = "app";
  url = "https://github.com/acme/app";
  type = "repository";
}

abbrev pub acme : AdminRepo
acme = record {
  host = "github.com";
  owner = "acme";
  repo = "";
  url = "https://github.com/acme";
  type = "organization";
}

abbrev pub app_runner : RunnerStatus
app_runner = record {
  id = 1;
  name = "acme-app";
  mode = "scaleset";
  url = "https://github.com/acme/app";
  dir = "/runners/1";
  has_pat = true;
  max_runners = pos 2;
  labels = "gpu";
  runner_group = "";
  jobs_completed = 3;
  created_at = "2026";
  state = "Online";
  active_workers = 0;
  error = none;
}

abbrev pub existing : Option (List RunnerStatus)
existing = some (app_runner ∷ [])

pub existing-KnownModes : KnownModes (loaded existing)
existing-KnownModes = (inr refl, tt)

-- Two scopes are chosen, the mode is changed to scale sets, and a token and a name are entered.
abbrev pub inputs : List Input
inputs =
    Input.open_dialog
    ∷ Input.confirm_selection (app ∷ acme ∷ [])
    ∷ Input.toggle_mode (scaleset ∷ [])
    ∷ Input.edit_pat "github.com/repository" "ghp_1"
    ∷ Input.edit_pat "github.com/organization" "ghp_2"
    ∷ Input.edit_labels "gpu, x64"
    ∷ []

abbrev pub batch : Form
batch = record (initial "z") {
  mode = scaleset;
  selected_repos = app ∷ acme ∷ [];
  pats = ("github.com/repository", "ghp_1") ∷ ("github.com/organization", "ghp_2") ∷ [];
  labels = "gpu, x64";
}

inputs_test : handle_all no_lower (initial "z") inputs ≡ batch
unfolding run
inputs_test = refl

abbrev pub single : Form
single = record (initial "z") { selected_repos = app ∷ [] }

-- The scope with a runner of the mode is ignored, and the other one is sent.
batch_test :
    ((handle_submit no_lower fixed_ids all_good existing batch).sent
      ≡ record {
        name = "acme-k3x9ab";
        mode = "scaleset";
        url = "https://github.com/acme";
        pat = some "ghp_2";
        max_runners = none;
        labels = some ("gpu" ∷ "x64" ∷ []);
        runner_group = none;
      }
        ∷ [])
    × ((handle_submit no_lower fixed_ids all_good existing batch).toasts
        ≡ Toast.info "1 scope(s) ignored (already have scaleset)"
          ∷ Toast.success "1 runner added successfully"
          ∷ [])
unfolding run
batch_test = (refl, refl)

-- A name that the form offers for a scope and what is sent for it.
name_test :
    (display_name at_repo no_lower single ≡ "acme-app-z")
    × (runner_name no_lower fixed_ids single 0 app ≡ "acme-app-k3x9ab")
    × (sanitize_name no_lower "--My Repo!!" ≡ "my-repo")
unfolding run
name_test = (refl, refl, refl)

-- What the form shows for the batch and for the single scope.
view_test :
    ((selection_view at_repo existing batch).0 ≡ "2 selected — click to modify")
    × ((selection_view at_repo existing batch).2
        ≡ some "1 of 2 scope(s) will be ignored (already have scaleset).")
    × ((name_input at_repo existing single no_lower).value ≡ "acme-app-z")
    × ((name_input at_repo existing batch no_lower).is_disabled ≡ true)
    × (group_view batch ≡ group_input "")
    × (group_view single ≡ only_organizations)
    × (mode_fields at_repo existing single ≡ standalone_hint)
    × (submit_text at_repo existing batch ≡ "Save and Start Runners")
    × (mode_hint at_repo existing single
        ≡ "Uses short-lived registration tokens (auto-generated via OAuth). Best for isolation and strict compliance.")
    × (pat_guide_scope_types batch ≡ [])
unfolding run selection_view name_input group_view some_org_scope mode_fields submit_text mode_hint
    pat_guide_scope_types owner_types
view_test = (refl, refl, refl, refl, refl, refl, refl, refl, refl, refl)
