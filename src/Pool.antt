-- ===== src/Pool.antt =====
-- orchestrator/: the pool of worker containers. Here is the orchestrator's state, and what each of
-- its functions does to it between taking the mutex and giving it up. The counters are natural
-- numbers: System shows that none is lowered below 0.
pub mod System
pub mod Counts
pub mod Capacity
pub mod Wakeups
pub mod Names
pub mod Recovery
mod Tests
use github_action_runners_mu.Prelude.{
  ℕ, suc, ◌+◌, ◌-◌, String, Bool, true, false, not, ◌&&◌, Option, none, some, List, [], ◌∷◌, ltb,
  leb, if◌then◌else◌, length,
}
use github_action_runners_mu.Prelude.Int.{ℤ, pos, negsuc}
use github_action_runners_mu.Prelude.Dict.{Dict, lookup, store, discard}

pub record WarmWorker : Type 0 where
  pub container_id : String
  pub ip_address : String

pub record ActiveWorker : Type 0 where
  pub container_id : String
  pub ip_address : String
  pub runner_name : String

-- `listening` says that the goroutine of maintainPool waits on `broadcastCh`.
pub record Orchestrator : Type 0 where
  pub warm_pool : Dict WarmWorker
  pub active_workers : Dict ActiveWorker
  pub active_listeners : Dict ℕ
  pub max_workers : ℤ
  pub warm_workers_config : ℤ
  pub booting_count : ℕ
  pub pending_allocations : ℕ
  pub is_paused : Bool
  pub listening : Bool

-- NewOrchestrator, before the state is recovered.
abbrev pub new_orchestrator : ℤ → ℤ → Orchestrator
new_orchestrator max_workers warm_workers = record {
  warm_pool = [];
  active_workers = [];
  active_listeners = [];
  max_workers = max_workers;
  warm_workers_config = warm_workers;
  booting_count = 0;
  pending_allocations = 0;
  is_paused = false;
  listening = false;
}

-- `n >= m` for a count and a setting
abbrev pub at_least : ℕ → ℤ → Bool
at_least n (pos m) = leb m n
at_least n (negsuc m) = true

-- `m + n`, for a setting and a count
abbrev pub plus : ℤ → ℕ → ℤ
plus (pos m) n = pos (m + n)
plus (negsuc m) n = if ltb m n then pos (n - suc m) else negsuc (m - n)

-- `m[k]` on a map of counts, where a missing key counts 0
abbrev or_zero : Option ℕ → ℕ
or_zero none = 0
or_zero (some n) = n

unfoldable pub count : String → Dict ℕ → ℕ
count name m = or_zero (lookup name m)

-- `broadcast`: who waits goes on.
unfoldable pub broadcast : Orchestrator → Orchestrator
broadcast o = record o { listening = false }

unfoldable pub total : Orchestrator → ℕ
total o = length o.warm_pool + length o.active_workers + o.booting_count

unfoldable pub update_settings : ℤ → ℤ → Orchestrator → Orchestrator
unfolding broadcast
update_settings max_workers warm_workers o =
    broadcast (record o { max_workers = max_workers; warm_workers_config = warm_workers })

-- `o.activeListeners[name]++` and `--`
unfoldable pub increment : String → Orchestrator → Orchestrator
increment name o = record o {
  active_listeners = store name (suc (count name o.active_listeners)) o.active_listeners;
}

unfoldable pub decrement : String → Orchestrator → Orchestrator
decrement name o = record o {
  active_listeners = store name (count name o.active_listeners - 1) o.active_listeners;
}

-- The part of AbortWorker, and of handleContainerDeath, that takes an active worker off.
unfoldable pub drop_active : String → ActiveWorker → Orchestrator → Orchestrator
unfolding decrement
drop_active id aw o =
    decrement aw.runner_name (record o { active_workers = discard id o.active_workers })

-- The first part of AbortWorker; the runner is the one that is marked idle. The capacity is
-- evaluated after it, and the container is killed.
unfoldable pub abort_worker : String → Orchestrator → Orchestrator × Option String
unfolding drop_active
abort_worker id o = elim (lookup id o.active_workers) [
  | none ↦ (o, none)
  | some aw ↦ (drop_active id aw o, some aw.runner_name)
]

-- handleContainerDeath: the runner is the one that is marked idle and whose job is counted, and the
-- capacity is evaluated after it exactly if there is one.
unfoldable pub handle_container_death : String → Orchestrator → Orchestrator × Option String
unfolding drop_active broadcast
handle_container_death id o = elim (lookup id o.active_workers) [
  | some aw ↦ (broadcast (drop_active id aw o), some aw.runner_name)
  | none ↦ elim (lookup id o.warm_pool) [
    | some ww ↦ (broadcast (record o { warm_pool = discard id o.warm_pool }), none)
    | none ↦ (o, none)
  ]
]

-- `totalAssigned`
unfoldable pub total_assigned : Dict ℕ → ℕ
total_assigned [] = 0
total_assigned ((name, n) ∷ m) = n + total_assigned m

-- `active`: the runners that have a worker.
unfoldable pub busy_runners : Dict ℕ → List String
busy_runners [] = []
busy_runners ((name, n) ∷ m) = let rest = busy_runners m in if ltb 0 n then name ∷ rest else rest

-- What the pauser is told.
pub data Pausing : Type 0 where
  nothing unlock_others : Pausing
  lock_others : List String → Pausing

-- evaluateCapacity
unfoldable pub evaluate_capacity : Orchestrator → Orchestrator × Pausing
unfolding total_assigned busy_runners
evaluate_capacity o =
    if at_least (total_assigned o.active_listeners) o.max_workers && not o.is_paused
    then (record o { is_paused = true }, lock_others (busy_runners o.active_listeners))
    else if not (at_least (total_assigned o.active_listeners) o.max_workers) && o.is_paused
    then (record o { is_paused = false }, unlock_others)
    else (o, nothing)

-- The tests of maintainPool: more warm workers are wanted, and there is room for one.
unfoldable pub wants_worker : Orchestrator → Bool
wants_worker o = not (
    at_least (length o.warm_pool + o.booting_count)
      (plus o.warm_workers_config o.pending_allocations))

unfoldable pub has_room : Orchestrator → Bool
unfolding total
has_room o = not (at_least (total o) o.max_workers)

-- One round of maintainPool: it starts a container, or waits.
unfoldable pub maintain_pool : Orchestrator → Orchestrator × Bool
unfolding wants_worker has_room
maintain_pool o =
    if wants_worker o && has_room o
    then (record o { booting_count = suc o.booting_count }, true)
    else (record o { listening = true }, false)

-- The end of startContainer, where `none` is an error.
abbrev add_warm : Option WarmWorker → Orchestrator → Orchestrator
add_warm none o = o
add_warm (some ww) o = record o { warm_pool = store ww.container_id ww o.warm_pool }

unfoldable pub finish_boot : Option WarmWorker → Orchestrator → Orchestrator
finish_boot started o = add_warm started (record o { booting_count = o.booting_count - 1 })

-- AllocateWorker: its start, a round of its loop that takes the worker `id` out of the pool, the
-- registration of that worker, and the two ways to go on without one.
unfoldable pub ask_worker : Orchestrator → Orchestrator
unfolding broadcast
ask_worker o = broadcast (record o { pending_allocations = suc o.pending_allocations })

unfoldable pub take_worker : String → Orchestrator → Orchestrator
take_worker id o = record o {
  warm_pool = discard id o.warm_pool;
  pending_allocations = o.pending_allocations - 1;
}

unfoldable pub register_worker : WarmWorker → String → Orchestrator → Orchestrator
unfolding increment broadcast
register_worker ww name o = broadcast (
    increment name (record o {
      active_workers =
          store ww.container_id
            (record {
              container_id = ww.container_id;
              ip_address = ww.ip_address;
              runner_name = name;
            })
            o.active_workers;
    }))

unfoldable pub retry_worker : Orchestrator → Orchestrator
retry_worker o = record o { pending_allocations = suc o.pending_allocations }

unfoldable pub give_up_worker : Orchestrator → Orchestrator
give_up_worker o = record o { pending_allocations = o.pending_allocations - 1 }
