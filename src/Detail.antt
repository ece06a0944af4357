-- ===== src/Detail.antt =====
-- web/src/pages/RunnerDetail.tsx: the page of one runner, with the form that updates it and the
-- dialog that removes it. `parse_url` is `new URL(…)`, and `answer` is what the network answers.
pub mod Laws
pub mod Shown
pub mod Labels
mod Tests
use github_action_runners_mu.Prelude.{
  String, ◌<>◌, Bool, true, false, ◌&&◌, ◌||◌, Option, none, some, List, ◌∷◌, if◌then◌else◌, ◌==◌,
  truthy, or_text, contains, [],
}
use github_action_runners_mu.Prelude.Int.{ℤ}
use github_action_runners_mu.Prelude.Text.{parse_int_or}
use github_action_runners_mu.Browser.Effects.{Toast}
use github_action_runners_mu.Browser.Url.{Url, path_parts}
use github_action_runners_mu.Api.Types.{UpdateRunnerPayload, RunnerDetail}
use github_action_runners_mu.Api.Client.{
  Request, Fetched, Reason, Settled, update_runner, remove_runner, fulfilled, rejected,
}
use github_action_runners_mu.AddRunner.Form.{PatType, GuideOwner, classic, fine_grained}
use github_action_runners_mu.AddRunner.Submit.{split_labels, positive, message_of}

-- LIVE_STATES
abbrev live_states : List String
live_states = "Online" ∷ "Busy" ∷ "Registering" ∷ "Paused" ∷ "Draining" ∷ []

unfoldable pub is_live : RunnerDetail → Bool
is_live runner = contains live_states runner.state

abbrev pub is_standalone_registered : RunnerDetail → Bool
is_standalone_registered runner = runner.mode == "standalone" && runner.is_registered

-- `isReadOnly`
unfoldable pub is_read_only : RunnerDetail → Bool
unfolding is_live
is_read_only runner = is_live runner || is_standalone_registered runner

-- The value of the memo on the URL in ConfigForm.
pub record UrlScope : Type 0 where
  pub host : String
  pub owner : String
  pub scope_type : String

abbrev pub scope_of_parts : String → List String → UrlScope
scope_of_parts h [] = record { host = h; owner = ""; scope_type = "" }
scope_of_parts h (p ∷ []) = record { host = h; owner = p; scope_type = "organization" }
scope_of_parts h (p ∷ _ ∷ _) = record { host = h; owner = p; scope_type = "repository" }

abbrev pub no_scope : UrlScope
no_scope = record { host = ""; owner = ""; scope_type = "" }

abbrev pub name_of_parts : List String → Option String
name_of_parts [] = none
name_of_parts (_ ∷ []) = some "Organization"
name_of_parts (_ ∷ _ ∷ _) = some "Repository"

module _ (parse_url : String → Option Url) where
  unfoldable pub url_scope : String → UrlScope
  url_scope url =
      if truthy url
      then elim (parse_url url) [ none ↦ no_scope | some u ↦ scope_of_parts u.host (path_parts u) ]
      else no_scope

  -- `scope` of the page, for the URL of a loaded runner; `none` is null.
  unfoldable pub scope : String → Option String
  scope url =
      if truthy url
      then elim (parse_url url) [ none ↦ none | some u ↦ name_of_parts (path_parts u) ]
      else none

-- The state of ConfigForm.
pub record Config : Type 0 where
  pub pat : String
  pub group : String
  pub labels : String
  pub max_runners : ℤ
  pub loading : Bool
  pub pat_type : PatType
  pub pat_guide_owner : Option GuideOwner

-- The initial values, taken from the runner; `|| ""` and `|| 0` change nothing here.
unfoldable pub initial_config : RunnerDetail → Config
initial_config runner = record {
  pat = "";
  group = runner.runner_group;
  labels = runner.labels;
  max_runners = runner.max_runners;
  loading = false;
  pat_type = classic;
  pat_guide_owner = none;
}

pub data Edit : Type 0 where
  edit_labels : String → Edit
  edit_max_runners : String → Edit
  toggle_pat_type : List PatType → Edit
  edit_pat : String → Edit
  edit_group : String → Edit
  open_guide : Edit
  guide_open_change : Bool → Edit

abbrev owner_for : PatType → String → String
owner_for classic owner = ""
owner_for fine_grained owner = owner

-- The handlers of the inputs of ConfigForm.
unfoldable pub handle_edit : UrlScope → Config → Edit → Config
handle_edit s c (edit_labels value) = record c { labels = value }
handle_edit s c (edit_max_runners value) = record c { max_runners = parse_int_or value 0 }
handle_edit s c (toggle_pat_type []) = c
handle_edit s c (toggle_pat_type (t ∷ ts)) = record c { pat_type = t }
handle_edit s c (edit_pat value) = record c { pat = value }
handle_edit s c (edit_group value) = record c { group = value }
handle_edit s c open_guide = record c {
  pat_guide_owner = some (record {
    host = s.host;
    owner = owner_for c.pat_type s.owner;
    scope_type = some s.scope_type;
  });
}
handle_edit s c (guide_open_change true) = c
handle_edit s c (guide_open_change false) = record c { pat_guide_owner = none }

-- `text || undefined`
abbrev or_undefined : String → Option String
or_undefined t = if truthy t then some t else none

abbrev is_organization : Option String → Bool
is_organization none = false
is_organization (some s) = s == "Organization"

-- What `api.updateRunner` is given.
unfoldable pub config_payload : (String → Option Url) → RunnerDetail → Config → UpdateRunnerPayload
config_payload parse_url runner c = record {
  pat = if runner.mode == "scaleset" && truthy c.pat then some c.pat else none;
  max_runners = if runner.mode == "scaleset" then positive c.max_runners else none;
  labels = split_labels c.labels;
  runner_group =
      if is_organization (scope parse_url runner.url) then or_undefined c.group else none;
}

-- What a handler of the page does besides the form's state; `reloads` is `onUpdated()`.
pub record Effects : Type 0 where
  pub toast : Toast
  pub reloads : Bool
  pub navigation : Option String

-- `error.message || "Unknown error"` of a value that is taken for an Error.
abbrev error_message : Reason → String
error_message (Reason.error m runner) = or_text m "Unknown error"
error_message Reason.other = "Unknown error"

abbrev updated : RunnerDetail → Settled (Unit {0}) → Effects
updated runner (fulfilled _) = record {
  toast = Toast.success (
      if is_standalone_registered runner
      then "Runner retry requested"
      else "Runner updated and registration retried");
  reloads = true;
  navigation = none;
}
updated runner (rejected r) = record {
  toast = Toast.error (error_message r);
  reloads = false;
  navigation = none;
}

-- `handleSubmit` of ConfigForm: its effects, and the form when it has ended.
unfoldable pub handle_submit :
    (String → Option Url)
    → (Request → Fetched (Unit {0}))
    → RunnerDetail
    → Config
    → Effects × Config
unfolding config_payload
handle_submit parse_url answer runner c = (
  updated runner (update_runner answer runner.name (config_payload parse_url runner c)),
  record c { loading = false },
)

abbrev pub removed : String → Settled (Unit {0}) → Effects
removed name (fulfilled _) = record {
  toast = Toast.success ("Runner " <> (name <> " removal requested"));
  reloads = false;
  navigation = some "/";
}
removed name (rejected r) = record {
  toast = Toast.error (message_of r);
  reloads = false;
  navigation = none;
}

-- `removeRunner`, with the name in the address of the page; `none` is a call that returns at once.
unfoldable pub remove : (Request → Fetched (Unit {0})) → Option String → Bool → Option Effects
remove answer none force = none
remove answer (some name) force =
    if truthy name then some (removed name (remove_runner answer name force)) else none
