-- ===== src/Pool/Counts.antt =====
-- The counters of the orchestrator (orchestrator/allocate.go, events.go) say what they mean,
-- whatever the goroutines do. Here is what they mean, Parts says that each part of a step keeps it,
-- and Steps that each step does.
pub mod Parts
pub mod Start
pub mod Steps
use github_action_runners_mu.Pool.Recovery.{Container}
use github_action_runners_mu.Prelude.{
  inl, inr, Option, none, Option-cases, ℕ, suc, ◌+◌, ◌-◌, ◌≤◌, String, ◌≡◌, refl, some, List, [],
  ◌∷◌, arith, if◌then◌else◌, ◌==◌, length, contains, false, of_guard, is_empty, of_then,
}
use github_action_runners_mu.Prelude.Int.{ℤ}
use github_action_runners_mu.Pool.{
  handle_container_death, take_worker, WarmWorker, ActiveWorker, Orchestrator, count, broadcast,
  increment, decrement, drop_active, total_assigned, register_worker,
}
use github_action_runners_mu.Pool.System.{
  start, remove_one, loop_round, Hand, System, check_hand, register_hand,
}
use github_action_runners_mu.Prelude.Dict.{
  Dict, lookup, store, discard, occurs, occurs_of_lookup, length-store_new, discard_absent,
  length-discard_one, lookup-store, occurs-discard, lookup-discard, occurs-store_new,
}
use mathlib.Core.Option.{none-ne-some, some-injective}

total_assigned-store :
    (name : String) (n : ℕ) (m : Dict ℕ)
    → total_assigned (store name n m) + count name m ≡ n + total_assigned m
unfolding total_assigned store count lookup
total_assigned-store name n [] = omega arith
total_assigned-store name n ((j, k) ∷ m) = ground (arith, total_assigned-store name n m)

count-store :
    (j name : String) (n : ℕ) (m : Dict ℕ)
    → count j (store name n m) ≡ (if name == j then n else count j m)
unfolding count
count-store j name n m = ground (arith, lookup-store j name n m)

-- How many active workers a runner has.
unfoldable pub workers_of : String → Dict ActiveWorker → ℕ
workers_of name [] = 0
workers_of name ((id, aw) ∷ m) =
    if aw.runner_name == name then suc (workers_of name m) else workers_of name m

workers_of-store :
    (name id : String) (aw : ActiveWorker) (m : Dict ActiveWorker)
    → occurs id m ≡ 0
    → workers_of name (store id aw m)
      ≡ (if aw.runner_name == name then suc (workers_of name m) else workers_of name m)
unfolding workers_of store occurs
workers_of-store name id aw [] h = refl
workers_of-store name id aw ((j, b) ∷ m) h = ground (arith, workers_of-store name id aw m)

workers_of-discard :
    (name id : String) (aw : ActiveWorker) (m : Dict ActiveWorker)
    → lookup id m ≡ some aw
    → occurs id m ≤ 1
    → workers_of name m ≡ (
        if aw.runner_name == name
        then suc (workers_of name (discard id m))
        else workers_of name (discard id m))
unfolding workers_of discard occurs lookup
workers_of-discard name id aw [] e h = ground arith
workers_of-discard name id aw ((j, b) ∷ m) e h =
    ground (arith, workers_of-discard name id aw m, discard_absent id m)

-- Each container is at one place at most, and only if its identifier was given out.
abbrev pub IsOwned : Dict WarmWorker → Dict Hand → Dict ActiveWorker → List String → Type 0
IsOwned warm hands active used =
    (id : String)
    → occurs id warm + occurs id hands + occurs id active ≤ (if contains used id then 1 else 0)

-- The keys of the pool are the identifiers of its workers.
abbrev pub IsKeyed : Dict WarmWorker → Dict Hand → Type 0
IsKeyed warm hands =
    ((id : String) (ww : WarmWorker) → lookup id warm ≡ some ww → ww.container_id ≡ id)
    × ((id : String) (h : Hand) → lookup id hands ≡ some h → h.worker.container_id ≡ id)

-- The count of a runner is the number of its active workers, and the counts together are the number
-- of all active workers.
abbrev pub IsTallied : Dict ActiveWorker → Dict ℕ → Type 0
IsTallied active listeners =
    ((name : String) → count name listeners ≡ workers_of name active)
    × (total_assigned listeners ≡ length active)

pub record AreCounted (warm : Dict WarmWorker) (hands : Dict Hand) (active : Dict ActiveWorker)
    (listeners : Dict ℕ) (used : List String) (booting started pending calls : ℕ) : Type 0 where
  pub owned : IsOwned warm hands active used
  pub keyed : IsKeyed warm hands
  pub tallied : IsTallied active listeners
  pub boots : booting ≡ started
  pub waits : pending ≡ calls

abbrev pub IsCounted : System → Type 0
IsCounted s =
    AreCounted s.orch.warm_pool s.in_hand s.orch.active_workers s.orch.active_listeners s.used
      s.orch.booting_count s.boots s.orch.pending_allocations (length s.waiting)

-- With other counts of the starts and of the calls that are equal again.
pub recounted :
    {warm : Dict WarmWorker} {hands : Dict Hand} {active : Dict ActiveWorker} {listeners : Dict ℕ}
    {used : List String} {a b c d a' b' c' d' : ℕ}
    → AreCounted warm hands active listeners used a b c d
    → a' ≡ b'
    → c' ≡ d'
    → AreCounted warm hands active listeners used a' b' c' d'
recounted h x y = record {
  owned = h.owned;
  keyed = h.keyed;
  tallied = h.tallied;
  boots = x;
  waits = y;
}

pub drop_active-IsTallied :
    (id : String) (aw : ActiveWorker) (o : Orchestrator)
    → lookup id o.active_workers ≡ some aw
    → occurs id o.active_workers ≤ 1
    → IsTallied o.active_workers o.active_listeners
    → IsTallied (drop_active id aw o).active_workers (drop_active id aw o).active_listeners
unfolding drop_active decrement
drop_active-IsTallied id aw o e one (h, t) = (
  λ name. ground (
    arith,
    h name,
    count-store name aw.runner_name (count aw.runner_name o.active_listeners - 1)
        o.active_listeners,
    workers_of-discard name id aw o.active_workers,
    h aw.runner_name,
    workers_of-discard aw.runner_name id aw o.active_workers,
  ),
  ground (
    arith,
    h aw.runner_name,
    workers_of-discard aw.runner_name id aw o.active_workers,
    total_assigned-store aw.runner_name (count aw.runner_name o.active_listeners - 1)
        o.active_listeners,
    occurs_of_lookup id o.active_workers aw,
    length-discard_one id o.active_workers,
  ),
)

pub register_worker-IsTallied :
    (ww : WarmWorker) (name : String) (o : Orchestrator)
    → occurs ww.container_id o.active_workers ≡ 0
    → IsTallied o.active_workers o.active_listeners
    → IsTallied
        (register_worker ww name o).active_workers
        (register_worker ww name o).active_listeners
unfolding register_worker increment broadcast
register_worker-IsTallied ww name o new (h, t) =
    let aw : ActiveWorker = record {
      container_id = ww.container_id;
      ip_address = ww.ip_address;
      runner_name = name;
    } in
    (
      λ j. ground (
        arith,
        h j,
        h name,
        count-store j name (suc (count name o.active_listeners)) o.active_listeners,
        workers_of-store j ww.container_id aw o.active_workers,
      ),
      ground (
        arith,
        total_assigned-store name (suc (count name o.active_listeners)) o.active_listeners,
        length-store_new ww.container_id aw o.active_workers,
      ),
    )

-- Identifiers that differ from each other and from some others.
abbrev pub IsFresh : List Container → List String → Type 0
IsFresh [] used = Unit
IsFresh (c ∷ cs) used = (contains used c.id ≡ false) × IsFresh cs (c.id ∷ used)
