-- ===== src/Api/Client.antt =====
-- The object `api` of web/src/lib/api.ts. The network answers a request with a response or fails;
-- the body of a response is read at the type that the code declares for it: the result's type when
-- `res.ok`, and RunnerErrorResponse otherwise.
pub mod Laws
mod Tests
use github_action_runners_mu.Prelude.{
  ℕ, String, ◌<>◌, Bool, true, false, List, [], Option, none, some, truthy, or_text, if◌then◌else◌,
}
use github_action_runners_mu.Prelude.Text.Uri.{encode_uri_component}
use github_action_runners_mu.Api.Types.{
  RunnerStatus, GlobalStatus, AddRunnerPayload, UpdateRunnerPayload, RunnerDetail,
  RunnerErrorResponse, Settings, AuthHost, AuthStatus, AdminRepo,
}

-- What JSON.stringify is given; an undefined field is left out of the text.
pub data Body : Type 0 where
  empty : Body
  add_payload : AddRunnerPayload → Body
  update_payload : UpdateRunnerPayload → Body
  settings_payload : Settings → Body
  code_payload : (code host : String) → Body

pub record Request : Type 0 where
  pub method : String
  pub url : String
  pub body : Body

-- `res.json()`: a value, or a rejection with the parser's message.
pub data Parsed (A : Type 0) : Type 0 where
  parsed : A → Parsed A
  unparsable : String → Parsed A

pub record Response (A : Type 0) : Type 0 where
  pub is_ok : Bool
  pub json : Parsed A
  pub error_json : Parsed RunnerErrorResponse

-- What `fetch` comes to: a response, or a rejection with a message.
pub data Fetched (A : Type 0) : Type 0 where
  response : Response A → Fetched A
  network_error : String → Fetched A

-- What is thrown: an Error, which may carry `runnerName`, or another value.
pub data Reason : Type 0 where
  error : (message : String) → (runner_name : Option String) → Reason
  other : Reason

-- A settled promise.
pub data Settled (A : Type 0) : Type 0 where
  fulfilled : A → Settled A
  rejected : Reason → Settled A

abbrev pub api_base : String
api_base = "/api/v1"

abbrev get_request : String → Request
get_request path = record { method = "GET"; url = api_base <> path; body = empty }

-- `return res.json()`
abbrev read_json : {A : Type 0} → Parsed A → Settled A
read_json (parsed a) = fulfilled a
read_json (unparsable m) = rejected (error m none)

-- `res.json().catch(() => ({}))`
abbrev pub error_body : Parsed RunnerErrorResponse → RunnerErrorResponse
error_body (parsed b) = b
error_body (unparsable m) = record { error = none; runner_name = none }

-- `body.error || fallback`
abbrev pub or_fallback : Option String → String → String
or_fallback none fallback = fallback
or_fallback (some m) fallback = or_text m fallback

-- `if (!res.ok) throw new Error(message)`, and then the body.
get_or_throw : {A : Type 0} → String → Fetched A → Settled A
get_or_throw message (network_error m) = rejected (error m none)
get_or_throw message (response res) =
    if res.is_ok then read_json res.json else rejected (error message none)

-- The same with the message that the answer carries, if it carries one.
get_or_throw_body : {A : Type 0} → String → Fetched A → Settled A
get_or_throw_body message (network_error m) = rejected (error m none)
get_or_throw_body message (response res) =
    if res.is_ok
    then read_json res.json
    else rejected (error (or_fallback (error_body res.error_json).error message) none)

-- A call whose result is void: the body of a good answer is not read.
pub done_or_throw : String → Fetched (Unit {0}) → Settled (Unit {0})
done_or_throw message (network_error m) = rejected (error m none)
done_or_throw message (response res) =
    if res.is_ok
    then fulfilled tt
    else rejected (error (or_fallback (error_body res.error_json).error message) none)

-- The same, where the error also carries the runner's name.
pub done_or_throw_named : String → Fetched (Unit {0}) → Settled (Unit {0})
done_or_throw_named message (network_error m) = rejected (error m none)
done_or_throw_named message (response res) =
    if res.is_ok
    then fulfilled tt
    else let body = error_body res.error_json in
      rejected (error (or_fallback body.error message) body.runner_name)

-- `data ?? []`
abbrev or_no_runners : Settled (Option (List RunnerStatus)) → Settled (List RunnerStatus)
or_no_runners (fulfilled none) = fulfilled []
or_no_runners (fulfilled (some runners)) = fulfilled runners
or_no_runners (rejected r) = rejected r

unfoldable pub get_runners :
    (Request → Fetched (Option (List RunnerStatus))) → Settled (List RunnerStatus)
unfolding get_or_throw
get_runners fetch =
    or_no_runners (get_or_throw "Failed to fetch runners" (fetch (get_request "/runners")))

abbrev pub add_runner_request : AddRunnerPayload → Request
add_runner_request payload = record {
  method = "POST";
  url = api_base <> "/runners";
  body = add_payload payload;
}

unfoldable pub add_runner : (Request → Fetched (Unit {0})) → AddRunnerPayload → Settled (Unit {0})
unfolding done_or_throw_named
add_runner fetch payload =
    done_or_throw_named "Failed to add runner" (fetch (add_runner_request payload))

unfoldable pub get_runner : (Request → Fetched RunnerDetail) → String → Settled RunnerDetail
unfolding get_or_throw_body
get_runner fetch name =
    get_or_throw_body "Failed to fetch runner" (fetch (get_request ("/runners/" <> name)))

abbrev pub update_runner_request : String → UpdateRunnerPayload → Request
update_runner_request name payload = record {
  method = "PUT";
  url = api_base <> ("/runners/" <> name);
  body = update_payload payload;
}

unfoldable pub update_runner :
    (Request → Fetched (Unit {0})) → String → UpdateRunnerPayload → Settled (Unit {0})
unfolding done_or_throw_named
update_runner fetch name payload =
    done_or_throw_named "Failed to update runner" (fetch (update_runner_request name payload))

-- `String(force)`
abbrev show_bool : Bool → String
show_bool true = "true"
show_bool false = "false"

abbrev pub remove_runner_request : String → Bool → Request
remove_runner_request name force = record {
  method = "DELETE";
  url = api_base <> ("/runners/" <> (name <> ("?force=" <> show_bool force)));
  body = empty;
}

unfoldable pub remove_runner : (Request → Fetched (Unit {0})) → String → Bool → Settled (Unit {0})
unfolding done_or_throw
remove_runner fetch name force =
    done_or_throw "Failed to remove runner" (fetch (remove_runner_request name force))

unfoldable pub get_status : (Request → Fetched GlobalStatus) → Settled GlobalStatus
unfolding get_or_throw
get_status fetch = get_or_throw "Failed to fetch status" (fetch (get_request "/status"))

unfoldable pub get_settings : (Request → Fetched Settings) → Settled Settings
unfolding get_or_throw
get_settings fetch = get_or_throw "Failed to fetch settings" (fetch (get_request "/settings"))

abbrev pub update_settings_request : Settings → Request
update_settings_request settings = record {
  method = "PUT";
  url = api_base <> "/settings";
  body = settings_payload settings;
}

unfoldable pub update_settings : (Request → Fetched (Unit {0})) → Settings → Settled (Unit {0})
unfolding done_or_throw
update_settings fetch settings =
    done_or_throw "Failed to update settings" (fetch (update_settings_request settings))

unfoldable pub get_auth_hosts : (Request → Fetched (List AuthHost)) → Settled (List AuthHost)
unfolding get_or_throw
get_auth_hosts fetch = get_or_throw "Failed to fetch auth hosts" (fetch (get_request "/auth/hosts"))

pub record Exchanged : Type 0 where
  pub access_token : String
  pub host : String

unfoldable pub exchange_code : (Request → Fetched Exchanged) → String → String → Settled Exchanged
unfolding get_or_throw_body
exchange_code fetch code host = get_or_throw_body "Failed to exchange code" (
    fetch
      (record { method = "POST"; url = api_base <> "/auth/token"; body = code_payload code host }))

unfoldable pub get_auth_status : (Request → Fetched (List AuthStatus)) → Settled (List AuthStatus)
unfolding get_or_throw
get_auth_status fetch =
    get_or_throw "Failed to fetch auth status" (fetch (get_request "/auth/status"))

-- `host ? … : …`
abbrev logout_url : Option String → String
logout_url none = api_base <> "/auth/logout"
logout_url (some host) =
    if truthy host
    then api_base <> ("/auth/logout?host=" <> encode_uri_component host)
    else api_base <> "/auth/logout"

-- The answer is not looked at, so only the network can make it fail.
abbrev ignore_response : Fetched (Unit {0}) → Settled (Unit {0})
ignore_response (network_error m) = rejected (error m none)
ignore_response (response res) = fulfilled tt

unfoldable pub logout : (Request → Fetched (Unit {0})) → Option String → Settled (Unit {0})
logout fetch host =
    ignore_response (fetch (record { method = "POST"; url = logout_url host; body = empty }))

unfoldable pub get_git_hub_repos : (Request → Fetched (List AdminRepo)) → Settled (List AdminRepo)
unfolding get_or_throw
get_git_hub_repos fetch = get_or_throw "Failed to fetch repos" (fetch (get_request "/github/repos"))
