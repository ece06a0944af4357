-- ===== src/Detail/Shown.antt =====
-- What web/src/pages/RunnerDetail.tsx and the guide of web/src/components/pat-guide-dialog.tsx
-- show. Layout and fixed texts are left out.
use github_action_runners_mu.Prelude.{
  suc, String, ◌<>◌, Bool, true, false, not, Option, none, some, List, ◌∷◌, ltb, if◌then◌else◌,
  ◌==◌, truthy, contains, [],
}
use github_action_runners_mu.Prelude.Int.{ℤ, pos, negsuc}
use github_action_runners_mu.Prelude.Text.{show}
use github_action_runners_mu.Browser.Url.{Url}
use github_action_runners_mu.Api.Types.{RunnerDetail}
use github_action_runners_mu.AddRunner.Form.{PatType, GuideOwner, classic, fine_grained}
use github_action_runners_mu.Overview.Shown.{
  Variant, state_variant, state_text, group_badge, error_text, mode_badge,
}
use github_action_runners_mu.Detail.{is_live, is_standalone_registered, is_read_only, scope, Config}

-- A text input.
pub record TextInput : Type 0 where
  pub value : String
  pub is_disabled : Bool

pub record PatField : Type 0 where
  pub pat_type : PatType
  pub is_configured : Bool
  pub placeholder : String
  pub value : String
  pub is_required : Bool
  pub is_disabled : Bool

pub data ModePart : Type 0 where
  standalone_text : String → ModePart
  pat_field : PatField → ModePart

pub data GroupPart : Type 0 where
  group_input : TextInput → GroupPart
  only_organizations : GroupPart
  no_group : GroupPart

pub record ConfigView : Type 0 where
  pub description : String
  pub labels : TextInput
  pub max_runners : Option TextInput
  pub mode_part : ModePart
  pub group_part : GroupPart
  pub submit : Option (String × Bool)

abbrev show_int : ℤ → String
show_int (pos n) = show n
show_int (negsuc n) = "-" <> show (suc n)

-- `maxRunners || ""`
abbrev show_max : ℤ → String
show_max n = if show_int n == "0" then "" else show_int n

abbrev token_placeholder : PatType → String
token_placeholder classic = "ghp_..."
token_placeholder fine_grained = "github_pat_..."

-- The bullets are shown for a token that is configured.
abbrev mode_part_of : RunnerDetail → Config → ModePart
mode_part_of runner c =
    if runner.mode == "standalone"
    then standalone_text (
        if is_standalone_registered runner
        then "Runner is already registered. No configuration changes needed to retry."
        else "Registration token is automatically generated using your OAuth session. No manual token entry required.")
    else pat_field (record {
      pat_type = c.pat_type;
      is_configured = runner.has_pat;
      placeholder = if runner.has_pat then "••••••••••••" else token_placeholder c.pat_type;
      value = c.pat;
      is_required = not runner.has_pat;
      is_disabled = is_read_only runner;
    })

abbrev group_part_of : Option String → RunnerDetail → Config → GroupPart
group_part_of none runner c = no_group
group_part_of (some s) runner c =
    if s == "Organization"
    then group_input (record { value = c.group; is_disabled = is_read_only runner })
    else if s == "Repository"
    then only_organizations
    else no_group

-- The form of ConfigForm.
unfoldable pub config_view : (String → Option Url) → RunnerDetail → Config → ConfigView
config_view parse_url runner c = record {
  description =
      if is_live runner
      then "Runner is currently active. Fields are read-only."
      else if is_standalone_registered runner
      then "Runner is already registered. Click retry to restart the listener."
      else "Update configuration and retry registration.";
  labels = record { value = c.labels; is_disabled = is_read_only runner };
  max_runners =
      if runner.mode == "scaleset"
      then some (record { value = show_max c.max_runners; is_disabled = is_read_only runner })
      else none;
  mode_part = mode_part_of runner c;
  group_part = group_part_of (scope parse_url runner.url) runner c;
  submit =
      if is_live runner
      then none
      else some (
        (if c.loading
            then "Retrying..."
            else if is_standalone_registered runner
            then "Retry Registration"
            else "Update and Retry"),
        c.loading,
      );
}

pub record StatusCard : Type 0 where
  pub title : String
  pub url : String
  pub scope_badge : Option String
  pub state : Variant × String
  pub mode : String
  pub group : Option String
  pub jobs : String
  pub workers : Option String
  pub error : Option String

pub record DetailView : Type 0 where
  pub status : StatusCard
  pub config : Option ConfigView
  pub shows_remove : Bool

-- The page; `none` is the skeleton of a page that is loading or has no runner.
unfoldable pub detail_view :
    (String → Option Url) → Bool → Option RunnerDetail → Config → Option DetailView
unfolding config_view
detail_view parse_url is_loading none c = none
detail_view parse_url is_loading (some runner) c =
    if is_loading
    then none
    else some (record {
      status = record {
        title = runner.name;
        url = runner.url;
        scope_badge = scope parse_url runner.url;
        state =
            (state_variant runner.state, state_text runner.state runner.mode runner.active_workers);
        mode = mode_badge runner.mode;
        group = group_badge runner.runner_group;
        jobs = show runner.jobs_completed <> " jobs completed";
        workers =
            if ltb 0 runner.active_workers
            then some (show runner.active_workers <> " active workers")
            else none;
        error = error_text runner.state runner.error;
      };
      config = if runner.can_manage then some (config_view parse_url runner c) else none;
      shows_remove = runner.can_manage;
    })

-- `patGuideScopeTypes` of ConfigForm
unfoldable pub guide_scope_types : Option GuideOwner → String → List String
guide_scope_types none scope_type = []
guide_scope_types (some o) scope_type = if truthy scope_type then scope_type ∷ [] else []

-- The variable part of PatGuideDialog.
pub record Guide : Type 0 where
  pub is_open : Bool
  pub title : String
  pub pat_url : String
  pub shows_org : Bool
  pub shows_repo : Bool

abbrev guide_host : Option GuideOwner → String
guide_host none = ""
guide_host (some o) = o.host

abbrev guide_owner : Option GuideOwner → String
guide_owner none = ""
guide_owner (some o) = o.owner

abbrev guide_kind : PatType → String
guide_kind classic = "Classic"
guide_kind fine_grained = "Fine-Grained"

abbrev guide_for : PatType → String → String
guide_for classic owner = ""
guide_for fine_grained owner = if truthy owner then " for " <> owner else ""

abbrev guide_path : PatType → String
guide_path classic = "/settings/tokens/new"
guide_path fine_grained = "/settings/personal-access-tokens/new"

abbrev is_given : Option GuideOwner → Bool
is_given none = false
is_given (some o) = true

unfoldable pub guide : Option GuideOwner → List String → PatType → Guide
guide owner scope_types t = record {
  is_open = is_given owner;
  title = "How to Create a " <> (guide_kind t <> (" PAT" <> guide_for t (guide_owner owner)));
  pat_url =
      if truthy (guide_host owner) then "https://" <> (guide_host owner <> guide_path t) else "#";
  shows_org = contains scope_types "organization";
  shows_repo = contains scope_types "repository";
}
