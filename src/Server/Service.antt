-- ===== src/Server/Service.antt =====
-- pkg/dashboard/service.go: the service of the runners, on the tables and the multiplexer.
use github_action_runners_mu.Prelude.{
  ℕ, String, Bool, true, false, not, ◌&&◌, Option, none, some, List, map, if◌then◌else◌, ◌==◌,
  is_empty,
}
use github_action_runners_mu.Prelude.Int.{ℤ, is_pos, nonzero}
use github_action_runners_mu.Mux.{Row, RunnerState, offline, failed}
use github_action_runners_mu.Server.{
  Tables, CreateRunnerParams, UpdateRunnerParams, find_runner, insert_runner, coalesce, update_row,
  delete_runners,
}
use github_action_runners_mu.Detail.Labels.{join_labels}

-- mux.RunnerStatus, as far as the service reads it
pub record RunnerStatus : Type 0 where
  pub state : RunnerState
  pub active_workers : ℕ
  pub error : String

-- What the service sees of the rest of the program: the status of a runner if it has a process,
-- whether a directory holds credentials, and what AddRunner makes of a row and a token, where `some`
-- is an error.
pub record World : Type 0 where
  pub live : String → Option RunnerStatus
  pub has_credentials : String → Bool
  pub add_runner : Row → String → Option String

pub data ServiceError : Type 0 where
  runner_not_found failed_to_save failed_to_update : ServiceError
  cannot_edit : RunnerState → ServiceError
  failed_to_start : String → ServiceError

pub record CombinedRunner : Type 0 where
  pub runner : Row
  pub state : RunnerState
  pub active_workers : ℕ
  pub error : String
  pub has_pat : Bool
  pub can_manage : Bool
  pub is_registered : Bool

unfoldable pub registered : World → Row → Bool
registered w r = r.mode == "standalone" && not (r.dir == "") && w.has_credentials r.dir

abbrev pub no_status : RunnerStatus
no_status = record { state = offline; active_workers = 0; error = "" }

abbrev pub without_pat : Row → Row
without_pat r = record r { pat = "" }

-- A row with its status, as ListRunners and GetRunner give it
unfoldable pub combined : World → Row → CombinedRunner
unfolding registered
combined w r =
    let st = coalesce (w.live r.name) no_status in
    record {
      runner = without_pat r;
      state = st.state;
      active_workers = st.active_workers;
      error = st.error;
      has_pat = not (r.pat == "");
      can_manage = false;
      is_registered = registered w r;
    }

-- ListRunners, less the order of the rows
unfoldable pub list_runners : World → Tables → List CombinedRunner
list_runners w db = map (combined w) db.runners

unfoldable pub get_runner : World → String → Tables → Option CombinedRunner
get_runner w name db = elim (find_runner name db.runners) [
  | none ↦ none
  | some r ↦ some (combined w r)
]

-- The row that CreateRunner and UpdateRunner return, or the error with the row that goes with it
pub data Outcome : Type 0 where
  done : Row → Outcome
  refused : ServiceError → Option Row → Outcome

abbrev pub started : Option String → Row → Bool → Outcome
started none r with_row = done (without_pat r)
started (some message) r with_row =
    refused (failed_to_start message) (if with_row then some r else none)

unfoldable pub create_runner : World → CreateRunnerParams → String → Tables → Outcome × Tables
create_runner w params token db = elim (insert_runner params db) [
  | none ↦ (refused failed_to_save none, db)
  | some (r, db') ↦ (started (w.add_runner r token) r true, db')
]

pub record UpdateRunnerInput : Type 0 where
  pub pat : String
  pub max_runners : ℤ
  pub labels : List String
  pub runner_group : String
  pub reg_token : String

-- The states in which UpdateRunner refuses to edit.
abbrev pub is_live : RunnerState → Bool
is_live offline = false
is_live failed = false
is_live _ = true

abbrev pub given : String → Option String
given s = if s == "" then none else some s

unfoldable pub update_params : ℕ → UpdateRunnerInput → UpdateRunnerParams
update_params id input = record {
  id = id;
  pat = given input.pat;
  max_runners = if is_pos input.max_runners then some input.max_runners else none;
  labels = if is_empty input.labels then none else some (join_labels input.labels);
  runner_group = given input.runner_group;
}

-- Whether UpdateRunner leaves the row as it is
unfoldable pub nothing_given : UpdateRunnerInput → Bool
nothing_given input =
    input.pat == ""
    && not (nonzero input.max_runners)
    && input.runner_group == ""
    && is_empty input.labels

abbrev pub refusing : Option RunnerStatus → Option RunnerState
refusing none = none
refusing (some st) = if is_live st.state then some st.state else none

unfoldable pub store_update : World → Row → UpdateRunnerInput → Tables → Option (Row × Tables)
unfolding registered nothing_given update_params
store_update w r input db =
    if registered w r && nothing_given input
    then some (r, db)
    else update_row (update_params r.id input) db

unfoldable pub update_runner : World → String → UpdateRunnerInput → Tables → Outcome × Tables
unfolding store_update
update_runner w name input db = elim (find_runner name db.runners) [
  | none ↦ (refused runner_not_found none, db)
  | some r ↦ elim (refusing (w.live name)) [
    | some state ↦ (refused (cannot_edit state) none, db)
    | none ↦ elim (store_update w r input db) [
      | none ↦ (refused failed_to_update none, db)
      | some (r', db') ↦ (started (w.add_runner r' input.reg_token) r' false, db')
    ]
  ]
]

-- DeleteRunner: whether there was one, and the tables. Stopping the process and leaving GitHub come
-- later and do not touch the tables.
unfoldable pub delete_runner : String → Tables → Bool × Tables
unfolding delete_runners
delete_runner name db = elim (find_runner name db.runners) [
  | none ↦ (false, db)
  | some r ↦ (true, record db { runners = delete_runners name db.runners })
]
