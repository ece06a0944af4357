-- ===== src/Pool/Tests.antt =====
-- Runs of the orchestrator on concrete events.
use github_action_runners_mu.Pool.Wakeups.{IsStuck}
use github_action_runners_mu.Pool.Wakeups.Lost.{lost_wake_up-IsStuck, lost_slot-IsStuck}
use github_action_runners_mu.Prelude.{
  sym, ◌+◌, ◌≤◌, String, ◌≡◌, refl, true, none, some, List, [], ◌∷◌, arith, text_dec, length, ◌≢◌,
  ap, ◌==◌, false,
}
use github_action_runners_mu.Pool.{
  evaluate_capacity, ActiveWorker, new_orchestrator, count, broadcast, total, increment,
  handle_container_death, wants_worker, has_room, maintain_pool, finish_boot, ask_worker,
  take_worker, register_worker, retry_worker, abort_worker, drop_active, decrement,
}
use github_action_runners_mu.Pool.Counts.{workers_of, IsCounted}
use github_action_runners_mu.Pool.Capacity.Freezing.{lock_others-workers_of}
use github_action_runners_mu.Mux.{Row, RunnerState, Process, online, busy, paused}
use github_action_runners_mu.Mux.Standalone.{Standalone, lock_others, is_online, signalled}
use github_action_runners_mu.Prelude.Int.{pos}
use github_action_runners_mu.Prelude.Dict.{lookup, store, discard, occurs}
use github_action_runners_mu.Pool.Names.{last_index}
use github_action_runners_mu.Pool.Recovery.{recover_containers, recover_state}
use github_action_runners_mu.Pool.Recovery.Restart.{
  warm_container, active_container, recover_state_restart,
}
use github_action_runners_mu.Pool.System.{
  System, start, Event, remove_one, loop_round, check_hand, register_hand, round, boot, step, run,
  ask, wake, check, register, pool_round, boot_ok, recheck, die, deliver,
}
use github_action_runners_mu.Pool.Counts.Steps.{run-IsCounted}
use github_action_runners_mu.Pool.Capacity.Bound.{run-weight_bound}
use mathlib.Core.Bool.{false≢true}

-- Two calls with room for one worker: the second container is started while the first is held.
abbrev overrun : List Event
overrun =
    ask "r" none
    ∷ pool_round
    ∷ boot_ok "c1" "10.0.0.1" true
    ∷ recheck "c1"
    ∷ wake "r" (some "c1")
    ∷ ask "q" none
    ∷ pool_round
    ∷ check "c1" none
    ∷ register "c1"
    ∷ boot_ok "c2" "10.0.0.2" true
    ∷ recheck "c2"
    ∷ wake "q" (some "c2")
    ∷ check "c2" none
    ∷ register "c2"
    ∷ []

abbrev active_worker : String → String → String → ActiveWorker
active_worker id ip name = record { container_id = id; ip_address = ip; runner_name = name }

abbrev overrun_end : System
overrun_end = record {
  orch = record (new_orchestrator (pos 1) (pos 0)) {
    active_workers =
        ("c1", active_worker "c1" "10.0.0.1" "r") ∷ ("c2", active_worker "c2" "10.0.0.2" "q") ∷ [];
    active_listeners = ("r", 1) ∷ ("q", 1) ∷ [];
  };
  boots = 0;
  rechecks = [];
  sleepers = 0;
  waiting = [];
  in_hand = [];
  running = "c2" ∷ "c1" ∷ [];
  deaths = [];
  used = "c2" ∷ "c1" ∷ [];
}

run-overrun : run (start [] (pos 1) (pos 0)) overrun ≡ some overrun_end
unfolding run step recover_state recover_containers loop_round check_hand register_hand round boot
    remove_one ask_worker broadcast maintain_pool wants_worker has_room total finish_boot
    take_worker register_worker increment count handle_container_death lookup store discard text_dec
run-overrun = refl

run-IsCounted_example : IsCounted overrun_end
run-IsCounted_example = run-IsCounted [] (pos 1) (pos 0) overrun overrun_end tt run-overrun

none_held : 0 ≤ 1
none_held = omega arith

one_held : 1 ≤ 1
one_held = omega arith

run-weight_bound_example : total overrun_end.orch + length overrun_end.in_hand ≤ 1 + 1
unfolding step recover_state recover_containers loop_round check_hand register_hand round boot
    remove_one ask_worker broadcast maintain_pool wants_worker has_room total finish_boot
    take_worker register_worker increment count handle_container_death lookup store discard text_dec
run-weight_bound_example =
    run-weight_bound 1 1 [] (pos 1) (pos 0) overrun overrun_end tt none_held refl
      (tt, (tt, (tt, (tt, (tt, (tt, (tt, (tt, (tt, (tt, (tt, (tt, (tt, (tt, tt))))))))))))))
      (
        none_held,
        (
          none_held,
          (
            none_held,
            (
              none_held,
              (
                none_held,
                (
                  one_held,
                  (
                    one_held,
                    (
                      one_held,
                      (
                        one_held,
                        (none_held, (none_held, (none_held, (one_held, (one_held, none_held))))),
                      ),
                    ),
                  ),
                ),
              ),
            ),
          ),
        ),
      )
      run-overrun

-- One more than the limit: the bound is reached.
total_overrun : total overrun_end.orch ≡ 2
unfolding total
total_overrun = refl

abbrev my_runner : String
my_runner = "my-runner"

named_runner : my_runner ≢ ""
unfolding text_dec
named_runner e = false≢true (ap (λ s. s == "") e)

recover_state_restart_example :
    let o =
      recover_state
        (some (
          warm_container (λ _. "0a1b2c3d") (record { container_id = "c1"; ip_address = "10.0.0.1" })
          ∷ active_container (λ _. "0a1b2c3d") (active_worker "c2" "10.0.0.2" "my-runner")
          ∷ []))
        (new_orchestrator (pos 5) (pos 0)) in
    (o.warm_pool ≡ (("c1", record { container_id = "c1"; ip_address = "10.0.0.1" }) ∷ []))
    × (o.active_workers ≡ (("c2", active_worker "c2" "10.0.0.2" "my-runner") ∷ []))
unfolding last_index occurs
recover_state_restart_example =
    recover_state_restart (λ _. "0a1b2c3d")
      (record { container_id = "c1"; ip_address = "10.0.0.1" } ∷ [])
      (active_worker "c2" "10.0.0.2" "my-runner" ∷ []) (pos 5) (pos 0) (refl, tt) (refl, tt)
      (λ _. refl) (named_runner, tt)

-- A call holds a container that it has not looked at yet.
abbrev holding : System
holding = record {
  orch = record (new_orchestrator (pos 5) (pos 0)) { listening = true };
  boots = 0;
  rechecks = [];
  sleepers = 0;
  waiting = [];
  in_hand =
      (
        "c",
        record {
          worker = record { container_id = "c"; ip_address = "10.0.0.1" };
          runner = "r";
          checked = false;
        },
      )
      ∷ [];
  running = "c" ∷ [];
  deaths = [];
  used = "c" ∷ [];
}

-- The state is reached from an empty start.
run-holding :
    run (start [] (pos 5) (pos 0)) (
      ask "r" none
      ∷ pool_round
      ∷ boot_ok "c" "10.0.0.1" true
      ∷ recheck "c"
      ∷ pool_round
      ∷ wake "r" (some "c")
      ∷ [])
    ≡ some holding
unfolding run step recover_state recover_containers loop_round check_hand round boot remove_one
    ask_worker broadcast maintain_pool wants_worker has_room total finish_boot take_worker
    handle_container_death lookup store discard text_dec
run-holding = refl

abbrev forgotten : System
forgotten = record holding {
  orch = record (new_orchestrator (pos 5) (pos 0)) { pending_allocations = 1; listening = true };
  waiting = "r" ∷ [];
  in_hand = [];
  running = [];
}

lost_wake_up-IsStuck_example : IsStuck "r" forgotten
unfolding run step check_hand loop_round remove_one retry_worker handle_container_death lookup
    discard has_room total text_dec
lost_wake_up-IsStuck_example =
    lost_wake_up-IsStuck "c" "r" holding (deliver "c" ∷ []) forgotten
      (record {
        worker = record { container_id = "c"; ip_address = "10.0.0.1" };
        holds = refl;
        sleeps = refl;
        no_warm = refl;
        no_active = refl;
        no_boots = refl;
        no_sleepers = refl;
        no_rechecks = refl;
        room = refl;
      })
      (tt, tt) refl

abbrev row : String → Row
row name = record {
  id = 1;
  name = name;
  mode = "standalone";
  url = "";
  dir = "";
  pat = "";
  max_runners = pos 0;
  labels = "";
  runner_group = "";
  jobs_completed = 0;
}

abbrev process : String → RunnerState → Process
process name state = record { config = row name; state = state; error = ""; active_workers = 0 }

-- An idle listener among two that have a job.
abbrev manager : Standalone
manager = record {
  processes = ("p", process "p" online) ∷ ("r", process "r" busy) ∷ [];
  listener_data = ("p", 7) ∷ ("r", 8) ∷ [];
  global_paused = false;
}

lock_others-workers_of_example : workers_of "p" overrun_end.orch.active_workers ≡ 0
unfolding evaluate_capacity lookup lock_others signalled text_dec
lock_others-workers_of_example =
    lock_others-workers_of (λ _. true) ("r" ∷ "q" ∷ []) overrun_end manager "p" (process "p" online)
      (process "p" paused) (run-IsCounted [] (pos 1) (pos 0) overrun overrun_end tt run-overrun)
      refl refl (λ e. false≢true (sym (ap is_online e))) refl refl

-- A call waits while another has the only worker.
abbrev serving : System
serving = record {
  orch = record (new_orchestrator (pos 1) (pos 0)) {
    active_workers = ("c", active_worker "c" "10.0.0.1" "r") ∷ [];
    active_listeners = ("r", 1) ∷ [];
    pending_allocations = 1;
    listening = true;
  };
  boots = 0;
  rechecks = [];
  sleepers = 0;
  waiting = "q" ∷ [];
  in_hand = [];
  running = "c" ∷ [];
  deaths = [];
  used = "c" ∷ [];
}

run-serving :
    run (start [] (pos 1) (pos 0)) (
      ask "r" none
      ∷ pool_round
      ∷ boot_ok "c" "10.0.0.1" true
      ∷ recheck "c"
      ∷ wake "r" (some "c")
      ∷ check "c" none
      ∷ register "c"
      ∷ ask "q" none
      ∷ pool_round
      ∷ [])
    ≡ some serving
unfolding run step recover_state recover_containers loop_round check_hand register_hand round boot
    remove_one ask_worker broadcast maintain_pool wants_worker has_room total finish_boot
    take_worker register_worker increment count handle_container_death lookup store discard text_dec
run-serving = refl

abbrev slot_free : System
slot_free = record serving {
  orch = record (new_orchestrator (pos 1) (pos 0)) {
    active_listeners = ("r", 0) ∷ [];
    pending_allocations = 1;
    listening = true;
  };
  running = [];
}

lost_slot-IsStuck_example : IsStuck "q" slot_free
unfolding run step remove_one abort_worker drop_active decrement count handle_container_death lookup
    store discard text_dec
lost_slot-IsStuck_example =
    lost_slot-IsStuck "c" "q" serving (die "c" ∷ deliver "c" ∷ []) slot_free
      (record {
        worker = active_worker "c" "10.0.0.1" "r";
        waits = refl;
        serves = refl;
        sleeps = refl;
        no_warm = refl;
        no_hand = refl;
        no_boots = refl;
        no_sleepers = refl;
        no_rechecks = refl;
        room = refl;
      })
      (tt, (tt, tt)) refl
