-- ===== src/Api/Client/Tests.antt =====
-- Runs of the calls of web/src/lib/api.ts on concrete answers.
use github_action_runners_mu.Prelude.{text_dec, [], ◌≡◌, refl, true, false, none, some}
use github_action_runners_mu.Api.Client.{
  get_runners, get_runner, get_status, get_settings, get_auth_hosts, get_auth_status,
  get_git_hub_repos, parsed, network_error, Request, Fetched, Reason, add_runner, update_runner,
  remove_runner, update_settings, logout, unparsable, response, fulfilled, rejected,
}
use github_action_runners_mu.Prelude.Int.{pos}
use github_action_runners_mu.Prelude.Text.Uri.{nth, escape, escape_code, encode_uri_component}
use github_action_runners_mu.Api.Types.{AddRunnerPayload, UpdateRunnerPayload, Settings}
use github_action_runners_mu.Api.Client.Laws.{HasMessage, changes-HasMessage}

-- The backend's gateway answers with a page that is no JSON.
abbrev no_json : Request → Fetched (Unit {0})
no_json q = response (record {
  is_ok = false;
  json = unparsable "Unexpected token <";
  error_json = unparsable "Unexpected token <";
})

abbrev settings : Settings
settings = record { max_workers = pos 4; warm_workers = pos 1 }

abbrev payload : AddRunnerPayload
payload = record {
  name = "acme-1";
  mode = "standalone";
  url = "https://github.com/acme";
  pat = none;
  max_runners = none;
  labels = none;
  runner_group = none;
}

abbrev changes : UpdateRunnerPayload
changes = record { pat = none; max_runners = none; labels = none; runner_group = none }

failure_test :
    (add_runner no_json payload ≡ rejected (Reason.error "Failed to add runner" none))
    × (logout no_json (some "a&b") ≡ fulfilled tt)
    × (encode_uri_component "a&b é" ≡ "a%26b%20%C3%A9")
unfolding add_runner logout encode_uri_component escape_code escape nth
failure_test = (refl, refl, refl)

changes-HasMessage_example :
    HasMessage (add_runner no_json payload)
    × HasMessage (update_runner no_json "acme-1" changes)
    × HasMessage (remove_runner no_json "acme-1" true)
    × HasMessage (update_settings no_json settings)
changes-HasMessage_example =
    changes-HasMessage no_json payload changes "acme-1" true settings (λ q. tt)

-- A good answer with a body, for each call that reads one.
abbrev good : {A : Type 0} → A → Request → Fetched A
good a q = response (record { is_ok = true; json = parsed a; error_json = unparsable "" })

abbrev broken : {A : Type 0} → Request → Fetched A
broken q = response (record {
  is_ok = false;
  json = unparsable "";
  error_json = parsed (record { error = some "gone"; runner_name = none });
})

reads_test :
    (get_runners (good none) ≡ fulfilled [])
    × (get_settings (good settings) ≡ fulfilled settings)
    × (get_runner broken "acme-1" ≡ rejected (Reason.error "gone" none))
    × (get_status broken ≡ rejected (Reason.error "Failed to fetch status" none))
    × (get_auth_hosts (good []) ≡ fulfilled [])
    × (get_auth_status (λ q. network_error "offline") ≡ rejected (Reason.error "offline" none))
    × (get_git_hub_repos broken ≡ rejected (Reason.error "Failed to fetch repos" none))
unfolding get_runners get_settings get_runner get_status get_auth_hosts get_auth_status
    get_git_hub_repos text_dec
reads_test = (refl, refl, refl, refl, refl, refl, refl)
