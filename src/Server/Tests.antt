-- ===== src/Server/Tests.antt =====
-- Requests to the backend on concrete tables.
use github_action_runners_mu.Prelude.{
  ◌↔◌, String, ◌≡◌, refl, true, false, ◌&&◌, Option, none, some, [], ◌∷◌, arith, if◌then◌else◌,
  text_dec, ◌==◌,
}
use github_action_runners_mu.Prelude.Int.{ℤ, pos}
use github_action_runners_mu.Pool.{new_orchestrator}
use github_action_runners_mu.Server.Unary.{write, read, read-write}
use github_action_runners_mu.Server.Limits.{
  get_settings, handle_update_settings, handle_update_settings_iff,
}
use github_action_runners_mu.Prelude.Dict.{Dict, lookup, store}
use github_action_runners_mu.Mux.{Row}
use github_action_runners_mu.Server.{
  Tables, find_runner, new_row, patch, update_row, patch_runners, find_id,
}
use github_action_runners_mu.Server.Service.{
  World, UpdateRunnerInput, update_params, update_runner, store_update, registered,
}
use github_action_runners_mu.Server.Access.{
  OAuthApp, AuthConfig, cookie_name_for_host, Github, get_or_create_username, oauth_token_for_host,
  auth_middleware, is_admin_from_context, admin_only, check_can_manage, passed,
}
use github_action_runners_mu.Server.Handlers.{
  CreatePayload, is_blank, create_params, handle, create_call, get_call, delete_call,
}
use github_action_runners_mu.Server.Invariant.{named, numbered, IsTable}
use github_action_runners_mu.Server.Updates.{update_runner-find_runner}
use github_action_runners_mu.Server.Cleared.{input_of, IsKept, update_runner-IsKept}
use github_action_runners_mu.Detail.{Config, config_payload, scope}
use github_action_runners_mu.Api.Types.{RunnerDetail}
use github_action_runners_mu.Browser.Url.{Url}
use github_action_runners_mu.AddRunner.Form.{classic}
use github_action_runners_mu.AddRunner.Submit.{split_labels}
use github_action_runners_mu.Prelude.Text.{split, trim, trim_start, trim_end, is_space}
use github_action_runners_mu.Server.Handlers.Tokens.{HasNoPat, handle-HasNoPat}
use github_action_runners_mu.Server.Handlers.Kept.{handle-IsTable}
use github_action_runners_mu.Server.Access.Permission.{handle-check_can_manage, handle_unknown_user}
use github_action_runners_mu.Server.Access.Cached.{admin_only-auth_middleware}
use github_action_runners_mu.Detail.Labels.{join_labels}

abbrev app : OAuthApp
app = record { host = "github.com"; client_id = "id" }

abbrev second_app : OAuthApp
second_app = record { host = "ghe.local"; client_id = "id" }

-- A GitHub that knows one token on one host, and gives nobody admin access.
abbrev user_of : String → String → Option String
user_of host token = if host == "github.com" && token == "t" then some "root" else none

abbrev github : Github
github = record {
  parse_repo_url = λ _. some (record { host = "github.com"; owner = "o"; repo = "r" });
  user = user_of;
  admin_access = λ _ _ _. some false;
  registration_token = λ _ _. some "reg";
}

abbrev world : World
world = record { live = λ _. none; has_credentials = λ _. true; add_runner = λ _ _. none }

abbrev stored_row : Row
stored_row = record {
  id = 1;
  name = "a";
  mode = "scaleset";
  url = "https://github.com/o/r";
  dir = "";
  pat = "secret";
  max_runners = pos 3;
  labels = "x,y";
  runner_group = "g";
  jobs_completed = 0;
}

abbrev tables : Tables
tables = record { runners = stored_row ∷ []; next_id = 2; settings = [] }

tables-IsTable : IsTable tables
unfolding named numbered
tables-IsTable = ((λ name. ground arith), (λ id. ground arith))

abbrev config : AuthConfig
config = record { oauth_apps = app ∷ []; admins = [] }

abbrev cookies : Dict String
cookies = ("gh_token_github_com", "t") ∷ []

abbrev new_runner : CreatePayload
new_runner = record {
  name = "b";
  mode = "scaleset";
  url = "https://github.com/o/r";
  pat = "p";
  max_runners = pos 1;
  labels = [];
  runner_group = "";
}

handle-HasNoPat_example :
    HasNoPat (handle github (some config) world cookies [] (get_call "a") tables).0.body
handle-HasNoPat_example =
    handle-HasNoPat github (some config) world cookies [] (get_call "a") tables

handle-IsTable_example :
    IsTable (handle github (some config) world cookies [] (create_call (some new_runner)) tables).1
handle-IsTable_example =
    handle-IsTable github (some config) world cookies [] (create_call (some new_runner)) tables
      tables-IsTable

-- Only the labels are given: the rest stays.
abbrev labels_only : UpdateRunnerInput
labels_only = record {
  pat = "";
  max_runners = pos 0;
  labels = "z" ∷ [];
  runner_group = "";
  reg_token = "";
}

update_runner-find_runner_example :
    find_runner "a" (update_runner world "a" labels_only tables).1.runners
    ≡ some (record stored_row { labels = "z" })
unfolding find_runner join_labels text_dec
update_runner-find_runner_example =
    update_runner-find_runner world "a" "a" labels_only tables stored_row tables-IsTable refl refl

abbrev detail : RunnerDetail
detail = record {
  id = 1;
  name = "a";
  mode = "scaleset";
  url = "https://github.com/o";
  dir = "";
  has_pat = true;
  max_runners = pos 3;
  labels = "x,y";
  runner_group = "g";
  jobs_completed = 0;
  created_at = "2026";
  state = "Failed";
  active_workers = 0;
  error = none;
  can_manage = true;
  is_registered = false;
}

abbrev at_org : String → Option Url
at_org url = some (record { host = "github.com"; pathname = "/o" })

-- The form with every field emptied.
abbrev emptied : Config
emptied = record {
  pat = "";
  group = "";
  labels = "";
  max_runners = pos 0;
  loading = false;
  pat_type = classic;
  pat_guide_owner = none;
}

update_runner-IsKept_example :
    let after =
      (update_runner world "a" (input_of "t" (config_payload at_org detail emptied)) tables).1 in
    (q : Row) × (find_runner "a" after.runners ≡ some q) × IsKept "" stored_row q
unfolding find_runner text_dec
update_runner-IsKept_example =
    update_runner-IsKept world "a" "t" at_org detail emptied tables stored_row tables-IsTable refl
      refl

-- A field of white space does clear the labels.
blank_labels_test :
    find_runner "a"
      (update_runner world "a"
        (input_of "t" (config_payload at_org detail (record emptied { labels = " " })))
        tables).1.runners
    ≡ some (record stored_row { labels = "" })
unfolding config_payload split_labels update_runner store_update update_row patch_runners patch
    find_id find_runner registered update_params join_labels split trim trim_start trim_end is_space
    text_dec scope
blank_labels_test = refl

handle-check_can_manage_example :
    (handle github (some config) world cookies [] (delete_call "a") tables).1 ≡ tables
unfolding find_runner check_can_manage auth_middleware get_or_create_username cookie_name_for_host
    oauth_token_for_host is_admin_from_context lookup store text_dec
handle-check_can_manage_example =
    handle-check_can_manage github (some config) world cookies []
      (some (("github.com", "root") ∷ [])) (delete_call "a") tables "a" stored_row refl refl refl
      refl

abbrev forged : Dict String
forged = ("gh_token_github_com", "forged") ∷ []

handle_unknown_user_example :
    (handle github (some config) world forged [] (create_call (some new_runner)) tables).1.runners
    ≡ new_row (create_params new_runner) 2 ∷ stored_row ∷ []
unfolding find_runner is_blank oauth_token_for_host cookie_name_for_host lookup text_dec
handle_unknown_user_example =
    handle_unknown_user github app [] world forged "forged" new_runner tables refl refl refl refl
      refl refl

abbrev both : Dict String
both = ("gh_token_github_com", "t") ∷ ("gh_token_ghe_local", "t") ∷ []

abbrev two_hosts : Option AuthConfig
two_hosts = some (record {
  oauth_apps = app ∷ second_app ∷ [];
  admins = record { host = "ghe.local"; username = "root" } ∷ [];
})

admin_only-auth_middleware_example :
    admin_only two_hosts (auth_middleware github two_hosts both []).0
    ≡ passed (some (("github.com", "root") ∷ ("ghe.local", "root") ∷ []))
unfolding oauth_token_for_host cookie_name_for_host lookup store text_dec
admin_only-auth_middleware_example =
    admin_only-auth_middleware github app second_app "t" "root" both refl refl refl

abbrev limits : Dict String
limits = ("max_workers", write (pos 5)) ∷ ("warm_workers", write (pos 0)) ∷ []

abbrev sent : Dict ℤ
sent = ("max_workers", pos 8) ∷ ("warm_workers", pos 2) ∷ []

handle_update_settings_iff_example :
    let (status, stored, o) =
      handle_update_settings write (some sent) limits (new_orchestrator (pos 5) (pos 0)) in
    (get_settings read stored ≡ (o.max_workers, o.warm_workers_config)) ↔ (true ≡ true)
unfolding get_settings lookup text_dec
handle_update_settings_iff_example =
    handle_update_settings_iff write read sent limits (new_orchestrator (pos 5) (pos 0)) read-write
      refl refl
