-- ===== src/Detail/Tests.antt =====
-- Runs of the page of web/src/pages/RunnerDetail.tsx on concrete inputs.
use github_action_runners_mu.AddRunner.Submit.{split_labels}
use github_action_runners_mu.Detail.Labels.{join_labels, split_labels-join_labels}
use github_action_runners_mu.Browser.Effects.{Toast}
use github_action_runners_mu.Api.Client.{
  remove_runner, Request, Fetched, parsed, unparsable, response,
}
use github_action_runners_mu.AddRunner.Form.{classic, fine_grained}
use github_action_runners_mu.Prelude.{
  String, ◌≡◌, refl, true, false, Option, none, some, [], ◌∷◌, text_dec,
}
use github_action_runners_mu.Prelude.Int.{pos}
use github_action_runners_mu.Prelude.Text.{split, trim, show, parse_int, parse_int_or}
use github_action_runners_mu.Browser.Url.{Url}
use github_action_runners_mu.Api.Types.{RunnerDetail}
use github_action_runners_mu.Detail.{
  is_live, is_read_only, url_scope, scope, Config, initial_config, handle_edit, config_payload,
  handle_submit, remove, edit_labels, edit_max_runners, edit_group,
}
use github_action_runners_mu.Detail.Shown.{config_view, detail_view, guide_scope_types, guide}
use github_action_runners_mu.Overview.Shown.{state_variant, state_text, mode_badge}

run : Unit {0}
unfolding is_live is_read_only url_scope scope initial_config handle_edit config_payload
    handle_submit remove config_view detail_view guide_scope_types guide state_variant state_text
    mode_badge split_labels split trim parse_int parse_int_or show text_dec
run = tt

abbrev at_org : String → Option Url
at_org url = some (record { host = "github.com"; pathname = "/acme" })

-- The network refuses, with a message.
abbrev refuses : Request → Fetched (Unit {0})
refuses q = response (record {
  is_ok = false;
  json = unparsable "";
  error_json = parsed (record { error = some "runner is busy"; runner_name = none });
})

abbrev org_runner : RunnerDetail
org_runner = record {
  id = 1;
  name = "acme-1";
  mode = "scaleset";
  url = "https://github.com/acme";
  dir = "/runners/1";
  has_pat = true;
  max_runners = pos 3;
  labels = "gpu";
  runner_group = "fast";
  jobs_completed = 3;
  created_at = "2026";
  state = "Failed";
  active_workers = 0;
  error = some "boom";
  can_manage = true;
  is_registered = false;
}

abbrev config : Config
config = initial_config org_runner

-- The fields are cleared, and nothing of that is sent.
abbrev cleared : Config
cleared =
    handle_edit (url_scope at_org org_runner.url)
      (handle_edit (url_scope at_org org_runner.url)
        (handle_edit (url_scope at_org org_runner.url) config (edit_labels ""))
        (edit_max_runners "0"))
      (edit_group "")

payload_test :
    (config_payload at_org org_runner config ≡ record {
      pat = none;
      max_runners = some (pos 3);
      labels = some ("gpu" ∷ []);
      runner_group = some "fast";
    })
    × (config_payload at_org org_runner cleared
        ≡ record { pat = none; max_runners = none; labels = none; runner_group = none })
    × ((config_payload at_org org_runner (record config { labels = " " })).labels ≡ some ("" ∷ []))
unfolding run
payload_test = (refl, refl, refl)

-- What the page shows for a runner that is manageable, and the guide that its form opens.
view_test :
    (detail_view at_org true (some org_runner) config ≡ none)
    × ((guide
          (some (record { host = "github.com"; owner = "acme"; scope_type = none }))
          ("organization" ∷ [])
          fine_grained).title
        ≡ "How to Create a Fine-Grained PAT for acme")
    × ((guide
          (some (record { host = "github.com"; owner = ""; scope_type = none }))
          []
          classic).pat_url
        ≡ "https://github.com/settings/tokens/new")
    × ((config_view at_org org_runner config).submit ≡ some ("Update and Retry", false))
    × ((config_view at_org (record org_runner { state = "Busy" }) config).submit ≡ none)
    × (remove
          (λ q. response (record { is_ok = true; json = parsed tt; error_json = unparsable "" }))
          (some "acme-1")
          false
        ≡ some (record {
          toast = Toast.success "Runner acme-1 removal requested";
          reloads = false;
          navigation = some "/";
        }))
unfolding run remove_runner
view_test = (refl, refl, refl, refl, refl, refl)

-- The form's labels as the backend stores them, and as a form filled with them sends them again.
labels_test :
    (split_labels " gpu,x64 , " ≡ some ("gpu" ∷ "x64" ∷ "" ∷ []))
    × (join_labels ("gpu" ∷ "x64" ∷ "" ∷ []) ≡ "gpu,x64,")
unfolding run join_labels
labels_test = (refl, refl)

split_labels-join_labels_example :
    split_labels (join_labels ("gpu" ∷ "x64" ∷ "" ∷ [])) ≡ some ("gpu" ∷ "x64" ∷ "" ∷ [])
unfolding run join_labels
split_labels-join_labels_example =
    split_labels-join_labels " gpu,x64 , " ("gpu" ∷ "x64" ∷ "" ∷ []) refl refl
