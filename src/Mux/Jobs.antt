-- ===== src/Mux/Jobs.antt =====
-- The jobs of a runner between MarkBusy (pkg/mux/base_manager.go) and MarkIdle
-- (pkg/standalone/manager.go).
use github_action_runners_mu.Mux.{
  RunnerState, Process, busy_from, idle_from, mark_busy, mark_idle, online, busy, paused,
}
use github_action_runners_mu.Mux.Standalone.{Standalone, standalone_mark_idle}
use mathlib.Core.Option.{some-injective, none-ne-some}
use github_action_runners_mu.Prelude.{
  ◌≡◌, ◌∙◌, refl, ap, some, none, if◌then◌else◌, Option, suc, zero, ℕ, ◌-◌, List, [], ◌∷◌, Bool,
  String, true, false, arith,
}
use github_action_runners_mu.Prelude.Dict.{Dict, lookup, lookup-store_same}

-- Jobs that start (true) and end (false), as the manager is told of them.
unfoldable pub run_jobs : String → List Bool → Standalone → Standalone
run_jobs name [] m = m
run_jobs name (true ∷ js) m = run_jobs name js (record m { processes = mark_busy name m.processes })
run_jobs name (false ∷ js) m = run_jobs name js (standalone_mark_idle name m)

-- How many jobs go on at the end, of `n` at the start, if none ends that has not started.
abbrev pub open_jobs : ℕ → List Bool → Option ℕ
open_jobs n [] = some n
open_jobs n (true ∷ js) = open_jobs (suc n) js
open_jobs zero (false ∷ js) = none
open_jobs (suc n) (false ∷ js) = open_jobs n js

-- The process of an idle runner when `n` jobs go on.
abbrev pub working : ℕ → Process → Process
working zero p = record p { active_workers = 0 }
working (suc n) p = record p { active_workers = suc n; state = busy }

abbrev pub idle : Bool → RunnerState
idle true = paused
idle false = online

lookup-mark_busy :
    (name : String) (ps : Dict Process) (p : Process)
    → lookup name ps ≡ some p
    → lookup name (mark_busy name ps)
      ≡ some (record p { active_workers = suc p.active_workers; state = busy_from p.state })
unfolding mark_busy
lookup-mark_busy name ps p k = rw (k, mark_busy) (lookup-store_same name _ ps)

lookup-mark_idle :
    (name : String) (to : RunnerState) (ps : Dict Process) (p : Process)
    → lookup name ps ≡ some p
    → lookup name (mark_idle name to ps)
      ≡ some (record p {
        active_workers = p.active_workers - 1;
        state = idle_from to (p.active_workers - 1) p.state;
      })
unfolding mark_idle
lookup-mark_idle name to ps p k = rw (k, mark_idle) (lookup-store_same name _ ps)

one_more_working :
    (n : ℕ) (b : Bool) (p : Process)
    → p.state ≡ idle b
    → record (working n p) {
      active_workers = suc (working n p).active_workers;
      state = busy_from (working n p).state;
    }
      ≡ working (suc n) p
one_more_working zero true p e = rw e refl
one_more_working zero false p e = rw e refl
one_more_working (suc n) b p e = refl

one_less_working :
    (n : ℕ) (b : Bool) (p : Process)
    → p.state ≡ idle b
    → record (working (suc n) p) {
      active_workers = (working (suc n) p).active_workers - 1;
      state =
          idle_from
            (if b then paused else online)
            ((working (suc n) p).active_workers - 1)
            (working (suc n) p).state;
    }
      ≡ working n p
one_less_working zero true p e = rw e refl
one_less_working zero false p e = rw e refl
one_less_working (suc n) b p e = let d : suc (suc n) - 1 ≡ suc n = omega arith in rw d refl

run_jobs-working :
    (name : String) (js : List Bool) (n k : ℕ) (m : Standalone) (p : Process)
    → p.state ≡ idle m.global_paused
    → lookup name m.processes ≡ some (working k p)
    → open_jobs k js ≡ some n
    → lookup name (run_jobs name js m).processes ≡ some (working n p)
unfolding run_jobs standalone_mark_idle
run_jobs-working name [] n k m p e l h = rw (← some-injective k n h) l
run_jobs-working name (true ∷ js) n k m p e l h =
    run_jobs-working name js n (suc k) (record m { processes = mark_busy name m.processes }) p e
      (lookup-mark_busy name m.processes (working k p) l
        ∙ ap some (one_more_working k m.global_paused p e))
      h
run_jobs-working name (false ∷ js) n zero m p e l h = absurd (none-ne-some n h)
run_jobs-working name (false ∷ js) n (suc k) m p e l h =
    run_jobs-working name js n k (standalone_mark_idle name m) p e
      (lookup-mark_idle name _ m.processes (working (suc k) p) l
        ∙ ap some (one_less_working k m.global_paused p e))
      h

-- Jobs that start and end in any order, none ending before it starts, leave an idle runner with as
-- many active workers as jobs that go on: Busy if there is one, and else in the state it had, Online,
-- or Paused if the manager is paused.
pub run_jobs_lem :
    (name : String) (js : List Bool) (n : ℕ) (m : Standalone) (p : Process)
    → lookup name m.processes ≡ some p
    → p.state ≡ idle m.global_paused
    → p.active_workers ≡ 0
    → open_jobs 0 js ≡ some n
    → lookup name (run_jobs name js m).processes ≡ some (working n p)
run_jobs_lem name js n m p l e z h = run_jobs-working name js n 0 m p e (rw z at l) h
