-- ===== src/Server/Handlers.antt =====
-- pkg/dashboard/handlers_runner.go, and the routes of api.go: the requests about runners. The text
-- of an error is left out of the answer; the names that an answer carries are in it.
pub mod Tokens
pub mod Kept
use github_action_runners_mu.Prelude.{
  ℕ, Char, none, some, if◌then◌else◌, ◌==◌, ◌&&◌, ◌||◌, not, true, false, is_empty, any, List,
  String, Bool, Option, ◌<>◌,
}
use github_action_runners_mu.Prelude.Int.{ℤ}
use github_action_runners_mu.Prelude.Text.{code_is, between, includes}
use github_action_runners_mu.Prelude.Dict.{Dict}
use github_action_runners_mu.Mux.{Row}
use github_action_runners_mu.Server.{Tables, CreateRunnerParams}
use github_action_runners_mu.Server.Service.{
  World, ServiceError, CombinedRunner, list_runners, get_runner, Outcome, create_runner,
  update_runner, delete_runner, cannot_edit, failed_to_start, done, refused,
}
use github_action_runners_mu.Server.Access.{
  AuthConfig, Github, oauth_token_for_host, Passed, auth_middleware, check_can_manage, unauthorized,
  forbidden, passed,
}
use github_action_runners_mu.Detail.Labels.{join_labels}
use Prim.Native.String.{[], ◌∷◌}
use mathlib.Core.List

-- The payloads, with Go's zero values for what is missing.
pub record CreatePayload : Type 0 where
  pub name : String
  pub mode : String
  pub url : String
  pub pat : String
  pub max_runners : ℤ
  pub labels : List String
  pub runner_group : String

pub record UpdatePayload : Type 0 where
  pub pat : String
  pub max_runners : ℤ
  pub labels : List String
  pub runner_group : String

pub data Body : Type 0 where
  error deleted : Body
  error_of : (runner_name : String) → Body
  row : Row → Body
  combined_row : CombinedRunner → Body
  combined_rows : List CombinedRunner → Body

pub record Answer : Type 0 where
  pub status : ℕ
  pub body : Body

abbrev pub answer : ℕ → Body → Answer
answer status body = record { status = status; body = body }

-- `unicode.IsSpace`
abbrev is_unicode_space : Char → Bool
is_unicode_space c =
    between 9 13 c
    || code_is 32 c
    || code_is 133 c
    || code_is 160 c
    || code_is 5760 c
    || between 8192 8202 c
    || code_is 8232 c
    || code_is 8233 c
    || code_is 8239 c
    || code_is 8287 c
    || code_is 12288 c

-- `strings.TrimSpace(s) == ""`
unfoldable pub is_blank : String → Bool
is_blank [] = true
is_blank (c ∷ s) = is_unicode_space c && is_blank s

-- generateRegToken
unfoldable pub generate_reg_token : Github → Dict String → String → Option String
unfolding oauth_token_for_host
generate_reg_token gh cookies url = elim (gh.parse_repo_url url) [
  | none ↦ none
  | some info ↦ elim (oauth_token_for_host cookies info.host) [
    | none ↦ none
    | some token ↦ gh.registration_token info token
  ]
]

unfoldable pub create_params : CreatePayload → CreateRunnerParams
create_params p = record {
  name = p.name;
  mode = p.mode;
  url = p.url;
  dir = if p.mode == "standalone" then "/opt/runners/" <> p.name else "";
  pat = p.pat;
  max_runners = p.max_runners;
  labels = join_labels p.labels;
  runner_group = p.runner_group;
}

abbrev pub created : String → Outcome × Tables → Answer × Tables
created name (done r, db) = (answer 201 (row r), db)
created name (refused e none, db) = (answer 500 error, db)
created name (refused e (some r), db) = (answer 422 (error_of name), db)

abbrev pub create_with : World → CreatePayload → Option String → Tables → Answer × Tables
create_with w p none db = (answer 422 (error_of p.name), db)
create_with w p (some token) db = created p.name (create_runner w (create_params p) token db)

-- createRunner, where no payload is one that cannot be read
unfoldable pub handle_create :
    Github → World → Dict String → Option CreatePayload → Tables → Answer × Tables
unfolding is_blank generate_reg_token create_params create_runner
handle_create gh w cookies none db = (answer 400 error, db)
handle_create gh w cookies (some p) db =
    if is_blank p.name || is_blank p.mode || is_blank p.url
    then (answer 400 error, db)
    else create_with w p
        (if p.mode == "standalone" then generate_reg_token gh cookies p.url else some "") db

unfoldable pub handle_get :
    Github
    → Option AuthConfig
    → World
    → Dict String
    → Option (Dict String)
    → String
    → Tables
    → Answer
unfolding get_runner check_can_manage
handle_get gh cfg w cookies users name db = elim (get_runner w name db) [
  | none ↦ answer 404 error
  | some c ↦
      answer 200 (
        combined_row (record c { can_manage = check_can_manage gh cfg cookies users c.runner.url }))
]

abbrev pub is_conflict : ServiceError → Bool
is_conflict (cannot_edit state) = true
is_conflict (failed_to_start message) = includes message "cannot edit runner"
is_conflict e = false

abbrev pub updated : String → Outcome × Tables → Answer × Tables
updated name (done r, db) = (answer 200 (row r), db)
updated name (refused e r, db) =
    (if is_conflict e then answer 409 error else answer 422 (error_of name), db)

abbrev pub update_with : World → String → UpdatePayload → Option String → Tables → Answer × Tables
update_with w name p none db = (answer 422 (error_of name), db)
update_with w name p (some token) db = updated name (
    update_runner w name
      (record {
        pat = p.pat;
        max_runners = p.max_runners;
        labels = p.labels;
        runner_group = p.runner_group;
        reg_token = token;
      })
      db)

unfoldable pub handle_update :
    Github
    → Option AuthConfig
    → World
    → Dict String
    → Option (Dict String)
    → String
    → Option UpdatePayload
    → Tables
    → Answer × Tables
unfolding get_runner check_can_manage generate_reg_token update_runner
handle_update gh cfg w cookies users name none db = (answer 400 error, db)
handle_update gh cfg w cookies users name (some p) db = elim (get_runner w name db) [
  | none ↦ (answer 404 error, db)
  | some c ↦
      if not (check_can_manage gh cfg cookies users c.runner.url)
      then (answer 403 error, db)
      else update_with w name p
          (if c.runner.mode == "standalone" && not c.is_registered
            then generate_reg_token gh cookies c.runner.url
            else some "")
          db
]

abbrev pub removed : Bool × Tables → Answer × Tables
removed (true, db) = (answer 200 deleted, db)
removed (false, db) = (answer 500 error, db)

unfoldable pub handle_delete :
    Github
    → Option AuthConfig
    → World
    → Dict String
    → Option (Dict String)
    → String
    → Tables
    → Answer × Tables
unfolding get_runner check_can_manage delete_runner
handle_delete gh cfg w cookies users name db = elim (get_runner w name db) [
  | none ↦ (answer 404 error, db)
  | some c ↦
      if not (check_can_manage gh cfg cookies users c.runner.url)
      then (answer 403 error, db)
      else removed (delete_runner name db)
]

-- The routes about runners.
pub data Call : Type 0 where
  list_call : Call
  create_call : Option CreatePayload → Call
  get_call delete_call : (name : String) → Call
  update_call : (name : String) → Option UpdatePayload → Call

-- A protected handler behind AuthMiddleware
unfoldable pub protected :
    Github → Option AuthConfig → World → Dict String → Passed → Call → Tables → Answer × Tables
unfolding handle_create handle_get handle_update handle_delete list_runners
protected gh cfg w cookies unauthorized call db = (answer 401 error, db)
protected gh cfg w cookies forbidden call db = (answer 403 error, db)
protected gh cfg w cookies (passed users) list_call db =
    (answer 200 (combined_rows (list_runners w db)), db)
protected gh cfg w cookies (passed users) (create_call p) db = handle_create gh w cookies p db
protected gh cfg w cookies (passed users) (get_call name) db =
    (handle_get gh cfg w cookies users name db, db)
protected gh cfg w cookies (passed users) (delete_call name) db =
    handle_delete gh cfg w cookies users name db
protected gh cfg w cookies (passed users) (update_call name p) db =
    handle_update gh cfg w cookies users name p db

abbrev pub is_public : Call → Bool
is_public list_call = true
is_public call = false

unfoldable pub handle :
    Github → Option AuthConfig → World → Dict String → Dict String → Call → Tables → Answer × Tables
unfolding protected auth_middleware
handle gh cfg w cookies cache call db =
    protected gh cfg w cookies
      (if is_public call then passed none else (auth_middleware gh cfg cookies cache).0) call db
