-- ===== src/Mux.antt =====
-- pkg/mux: the states of a runner and the shared life cycle of the managers. A function here is what
-- an operation of BaseManager does to the processes between taking the lock and giving it up; the
-- hooks that it calls in between are events of Life.
pub mod Moves
pub mod Life
pub mod Jobs
pub mod Standalone
mod Tests
use github_action_runners_mu.Prelude.{
  ℕ, zero, suc, ◌-◌, String, Bool, true, false, Option, none, some, List, [], ◌∷◌, if◌then◌else◌,
  any,
}
use github_action_runners_mu.Prelude.Int.{ℤ}
use github_action_runners_mu.Prelude.Dict.{Dict, lookup, store}

-- sqlc.Runner, a row of the table of runners, less the time of its creation
pub record Row : Type 0 where
  pub id : ℕ
  pub name : String
  pub mode : String
  pub url : String
  pub dir : String
  pub pat : String
  pub max_runners : ℤ
  pub labels : String
  pub runner_group : String
  pub jobs_completed : ℕ

pub data RunnerState : Type 0 where
  registering online busy paused draining offline failed : RunnerState

unfoldable pub valid_transitions : RunnerState → List RunnerState
valid_transitions registering = online ∷ failed ∷ offline ∷ []
valid_transitions online = busy ∷ paused ∷ draining ∷ failed ∷ offline ∷ []
valid_transitions busy = online ∷ draining ∷ failed ∷ []
valid_transitions paused = online ∷ draining ∷ []
valid_transitions draining = offline ∷ []
valid_transitions offline = registering ∷ []
valid_transitions failed = registering ∷ offline ∷ []

unfoldable pub same_state : RunnerState → RunnerState → Bool
same_state registering registering = true
same_state online online = true
same_state busy busy = true
same_state paused paused = true
same_state draining draining = true
same_state offline offline = true
same_state failed failed = true
same_state _ _ = false

-- ValidateTransition, whether it returns nil
unfoldable pub validate_transition : RunnerState → RunnerState → Bool
unfolding valid_transitions same_state
validate_transition from to = any (same_state to) (valid_transitions from)

pub record Process : Type 0 where
  pub config : Row
  pub state : RunnerState
  pub error : String
  pub active_workers : ℕ

-- The errors of errors.go that the manager returns.
pub data MuxError : Type 0 where
  runner_not_found runner_already_running invalid_transition : MuxError

-- The change of one process, of the map `Processes`.
unfoldable pub put_state : RunnerState → String → Process → Dict Process → Dict Process
put_state to name p ps = store name (record p { state = to }) ps

-- transitionLocked
unfoldable pub transition : String → RunnerState → Dict Process → Dict Process × Option MuxError
unfolding put_state
transition name to ps = elim (lookup name ps) [
  | none ↦ (ps, some runner_not_found)
  | some p ↦
      if validate_transition p.state to
      then (put_state to name p ps, none)
      else (ps, some invalid_transition)
]

unfoldable pub set_error : String → String → Dict Process → Dict Process
set_error name message ps = elim (lookup name ps) [
  | none ↦ ps
  | some p ↦ store name (record p { error = message }) ps
]

abbrev pub new_process : Row → Process
new_process cfg = record { config = cfg; state = registering; error = ""; active_workers = 0 }

-- The states in which Start begins again.
abbrev pub may_start : RunnerState → Bool
may_start offline = true
may_start failed = true
may_start registering = true
may_start _ = false

-- Start, before hooks.Launch
unfoldable pub start_process : Row → Dict Process → Dict Process × Option MuxError
start_process cfg ps = elim (lookup cfg.name ps) [
  | none ↦ (store cfg.name (new_process cfg) ps, none)
  | some p ↦
      if may_start p.state
      then (store cfg.name (new_process cfg) ps, none)
      else (ps, some runner_already_running)
]

-- Start, after a Launch that returned an error. It writes to the process that this Start stored: here
-- the map still has that one, since no other Start has stored one since.
unfoldable pub launch_failed : String → String → Dict Process → Dict Process
launch_failed name message ps = elim (lookup name ps) [
  | none ↦ ps
  | some p ↦ store name (record p { state = failed; error = message }) ps
]

abbrev pub has_stopped : RunnerState → Bool
has_stopped offline = true
has_stopped failed = true
has_stopped _ = false

-- Stop, before hooks.Halt, which it calls exactly if the first component is true
unfoldable pub stop_process : String → Dict Process → Bool × Dict Process × Option MuxError
unfolding put_state
stop_process name ps = elim (lookup name ps) [
  | none ↦ (false, ps, some runner_not_found)
  | some p ↦
      if has_stopped p.state then (false, ps, none) else (true, put_state draining name p ps, none)
]

abbrev pub busy_from : RunnerState → RunnerState
busy_from online = busy
busy_from paused = busy
busy_from s = s

unfoldable pub mark_busy : String → Dict Process → Dict Process
mark_busy name ps = elim (lookup name ps) [
  | none ↦ ps
  | some p ↦
      store name (record p { active_workers = suc p.active_workers; state = busy_from p.state }) ps
]

abbrev pub idle_from : RunnerState → ℕ → RunnerState → RunnerState
idle_from idle_state zero busy = idle_state
idle_from idle_state n s = s

-- MarkIdle; the subtraction stops at 0, as the guard says
unfoldable pub mark_idle : String → RunnerState → Dict Process → Dict Process
mark_idle name idle_state ps = elim (lookup name ps) [
  | none ↦ ps
  | some p ↦
      store name
        (record p {
          active_workers = p.active_workers - 1;
          state = idle_from idle_state (p.active_workers - 1) p.state;
        })
        ps
]
