-- ===== src/Mux/Tests.antt =====
-- The life cycle and the freezing on concrete processes.
use github_action_runners_mu.Prelude.{
  ℕ, ◌≡◌, refl, sym, ap, Bool, true, false, some, [], ◌∷◌, text_dec,
}
use github_action_runners_mu.Prelude.Int.{pos}
use github_action_runners_mu.Prelude.Dict.{lookup}
use github_action_runners_mu.Prelude.Dict.{store}
use github_action_runners_mu.Mux.{
  Row, RunnerState, valid_transitions, same_state, validate_transition, Process, mark_busy,
  mark_idle, put_state, stop_process, launch_failed, registering, online, busy, paused, draining,
  failed,
}
use github_action_runners_mu.Mux.Life.{Life, live, live-AllMove, stop, lock, job_start, launch_end}
use github_action_runners_mu.Mux.Moves.{AllMove}
use github_action_runners_mu.Mux.Jobs.{run_jobs, run_jobs_lem}
use github_action_runners_mu.Mux.Standalone.{
  Standalone, is_online, signalled, lock_others, unlock_others, unlock_others-lock_others,
  standalone_mark_idle,
}
use mathlib.Core.Bool.{false≢true}

abbrev row : Row
row = record {
  id = 1;
  name = "r";
  mode = "standalone";
  url = "https://github.com/o/r";
  dir = "";
  pat = "";
  max_runners = pos 0;
  labels = "";
  runner_group = "";
  jobs_completed = 0;
}

abbrev process : RunnerState → ℕ → Process
process state n = record { config = row; state = state; error = ""; active_workers = n }

abbrev life : RunnerState → ℕ → Life
life state n = record {
  manager = record {
    processes = ("r", process state n) ∷ [];
    listener_data = ("r", 7) ∷ [];
    global_paused = false;
  };
  launching = "r" ∷ [];
}

live-AllMove_example :
    AllMove
      (("r", process registering 0) ∷ [])
      (live (life registering 0) (lock (λ _. true) [])).manager.processes
live-AllMove_example = live-AllMove (life registering 0) (lock (λ _. true) [])

-- A listener that the table of transitions does not let become Busy does, when a job starts after it
-- was frozen, and a runner that is stopped while it registers drains.
unchecked_test :
    (lookup "r"
        (live (live (life online 0) (lock (λ _. true) [])) (job_start "r")).manager.processes
      ≡ some (process busy 1))
    × (validate_transition paused busy ≡ false)
    × (lookup "r" (live (life registering 0) (stop "r")).manager.processes
        ≡ some (process draining 0))
    × (lookup "r" (live (life registering 0) (launch_end "r" (some ""))).manager.processes
        ≡ some (process failed 0))
unfolding live lock_others signalled mark_busy stop_process launch_failed put_state
    validate_transition same_state valid_transitions lookup store text_dec
unchecked_test = (refl, refl, refl, refl)

-- The transition that Stop makes is one that the table refuses.
registering_draining : validate_transition registering draining ≡ false
unfolding validate_transition same_state valid_transitions
registering_draining = refl

abbrev idle_manager : Standalone
idle_manager = (life online 0).manager

run_jobs_lem_example :
    lookup "r" (run_jobs "r" (true ∷ true ∷ false ∷ []) idle_manager).processes
    ≡ some (process busy 1)
unfolding lookup text_dec
run_jobs_lem_example =
    run_jobs_lem "r" (true ∷ true ∷ false ∷ []) 1 idle_manager (process online 0) refl refl refl
      refl

-- An end that is told before its start leaves the runner Busy with one worker.
late_start_test :
    lookup "r" (run_jobs "r" (false ∷ true ∷ []) idle_manager).processes ≡ some (process busy 1)
unfolding run_jobs mark_busy mark_idle standalone_mark_idle lookup store text_dec
late_start_test = refl

-- A manager with a listener that is idle and one that is not.
abbrev manager : Standalone
manager = record {
  processes = ("p", process online 0) ∷ ("r", process busy 1) ∷ [];
  listener_data = ("p", 7) ∷ ("r", 8) ∷ [];
  global_paused = false;
}

unlock_others-lock_others_example :
    unlock_others (λ _. true) (lock_others (λ _. true) ("r" ∷ []) manager) ≡ manager
unlock_others-lock_others_example =
    unlock_others-lock_others (λ _. true) (λ _. true) ("r" ∷ []) manager (λ _ e. e)
      ((λ e. false≢true (sym (ap is_online e))), ((λ e. false≢true (sym (ap is_busy e))), tt))
  where
    is_busy : RunnerState → Bool
    is_busy busy = true
    is_busy s = false

-- Freezing does stop a listener.
lock_others-manager :
    (lock_others (λ _. true) ("r" ∷ []) manager).processes
    ≡ (("p", process paused 0) ∷ ("r", process busy 1) ∷ [])
unfolding lock_others signalled lookup text_dec
lock_others-manager = refl
