-- ===== src/Mux/Life.antt =====
-- The life of a runner's process (pkg/mux/base_manager.go) against the table of valid transitions
-- (pkg/mux/state.go), with the freezing of the standalone manager (pkg/standalone/pauser.go).
use github_action_runners_mu.Mux.{
  MuxError, busy_from, Row, RunnerState, Process, transition, set_error, start_process,
  launch_failed, stop_process, mark_busy, mark_idle,
}
use github_action_runners_mu.Mux.Standalone.{
  Standalone, lock_others, unlock_others, standalone_mark_idle,
}
use github_action_runners_mu.Prelude.{
  not, some, ◌==◌, none, if◌then◌else◌, if_rule, Option, ℕ, List, ◌∷◌, contains, filter, Bool,
  String,
}
use github_action_runners_mu.Prelude.Dict.{Dict}
use github_action_runners_mu.Mux.Moves.{
  AllMove, is_move_refl, keep-AllMove, store-AllMove, change-AllMove, found, busy_move, idle_move,
  freeze-AllMove, unfreeze-AllMove, launch_failed-AllMove, start_process-AllMove,
  transition-AllMove, stop_process-AllMove,
}

-- The standalone manager, and the runners for which a Launch is in flight whose Start stored the
-- process that the map has.
pub record Life : Type 0 where
  pub manager : Standalone
  pub launching : List String

-- What happens to the processes of the manager: calls of its operations, the ends of launches, with
-- the error if there is one, and what the hooks do: transitions, errors, and changes of the process
-- groups of the listeners. A Launch whose process another Start has replaced writes to none of the
-- map. The manager of the scale sets has the same events but for `lock` and `unlock`.
pub data LifeEvent : Type 0 where
  start : Row → LifeEvent
  launch_end : (name : String) → Option String → LifeEvent
  hook : (name : String) (to : RunnerState) → LifeEvent
  hook_error : (name message : String) → LifeEvent
  listeners : Dict ℕ → LifeEvent
  stop job_start job_end : (name : String) → LifeEvent
  lock : (stops : ℕ → Bool) → List String → LifeEvent
  unlock : (conts : ℕ → Bool) → LifeEvent

abbrev with_processes : Dict Process → Life → Life
with_processes ps s = record s { manager = record s.manager { processes = ps } }

abbrev ended : String → Life → Life
ended name s = record s { launching = filter (λ x. not (x == name)) s.launching }

abbrev launch_ended : String → Option String → Life → Life
launch_ended name none s = ended name s
launch_ended name (some message) s =
    ended name (with_processes (launch_failed name message s.manager.processes) s)

abbrev started : Row → Dict Process × Option MuxError → Life → Life
started cfg (ps, none) s = with_processes ps (record s { launching = cfg.name ∷ s.launching })
started cfg (ps, some e) s = with_processes ps s

unfoldable pub live : Life → LifeEvent → Life
live s (start cfg) = started cfg (start_process cfg s.manager.processes) s
live s (launch_end name message) =
    if contains s.launching name then launch_ended name message s else s
live s (hook name to) = with_processes (transition name to s.manager.processes).0 s
live s (hook_error name message) = with_processes (set_error name message s.manager.processes) s
live s (listeners groups) = record s { manager = record s.manager { listener_data = groups } }
live s (stop name) = with_processes (stop_process name s.manager.processes).1 s
live s (job_start name) = with_processes (mark_busy name s.manager.processes) s
live s (job_end name) = record s { manager = standalone_mark_idle name s.manager }
live s (lock stops active) = record s { manager = lock_others stops active s.manager }
live s (unlock conts) = record s { manager = unlock_others conts s.manager }

launch_ended-AllMove :
    (name : String) (message : Option String) (s : Life)
    → AllMove s.manager.processes (launch_ended name message s).manager.processes
launch_ended-AllMove name none s = keep-AllMove s.manager.processes
launch_ended-AllMove name (some message) s = launch_failed-AllMove name message s.manager.processes

started-AllMove :
    (cfg : Row) (x : Dict Process × Option MuxError) (s : Life)
    → AllMove s.manager.processes x.0
    → AllMove s.manager.processes (started cfg x s).manager.processes
started-AllMove cfg (ps, none) s h = h
started-AllMove cfg (ps, some e) s h = h

-- Under every event of the manager, the state of a process that stays moves as the table of valid
-- transitions allows, or in one of four ways that no test stands before: to Failed, from
-- Registering to Draining, from Paused to Busy, and from Busy to Paused. The events are its
-- operations, the ends of launches, the transitions and errors of the hooks, and the freezing and
-- unfreezing of listeners.
pub live-AllMove :
    (s : Life) (e : LifeEvent) → AllMove s.manager.processes (live s e).manager.processes
unfolding live set_error mark_busy mark_idle standalone_mark_idle lock_others unlock_others
live-AllMove s (start cfg) =
    started-AllMove cfg (start_process cfg s.manager.processes) s
      (start_process-AllMove cfg s.manager.processes)
live-AllMove s (launch_end name message) =
    if_rule (λ (t : Life). AllMove s.manager.processes t.manager.processes)
      (contains s.launching name) (λ _. launch_ended-AllMove name message s)
      λ _. keep-AllMove s.manager.processes
live-AllMove s (hook name to) = transition-AllMove name to s.manager.processes
live-AllMove s (hook_error name message) = change-AllMove s.manager.processes name _ λ p k.
    store-AllMove s.manager.processes name _
      (found s.manager.processes name p p.state k (is_move_refl p.state))
live-AllMove s (listeners groups) = keep-AllMove s.manager.processes
live-AllMove s (stop name) = stop_process-AllMove name s.manager.processes
live-AllMove s (job_start name) = change-AllMove s.manager.processes name _ λ p k.
    store-AllMove s.manager.processes name _
      (found s.manager.processes name p (busy_from p.state) k (busy_move p.state))
live-AllMove s (job_end name) = change-AllMove s.manager.processes name _ λ p k.
    store-AllMove s.manager.processes name _
      (found s.manager.processes name p _ k (idle_move s.manager.global_paused _ p.state))
live-AllMove s (lock stops active) =
    freeze-AllMove stops active s.manager.listener_data s.manager.processes
live-AllMove s (unlock conts) = unfreeze-AllMove conts s.manager.listener_data s.manager.processes
