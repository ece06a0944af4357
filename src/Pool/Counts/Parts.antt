-- ===== src/Pool/Counts/Parts.antt =====
-- The parts of the steps (orchestrator/allocate.go, events.go) keep the counters true.
use github_action_runners_mu.Prelude.{
  suc, ◌≤◌, String, ◌≡◌, inl, inr, false, some, arith, Option-cases, length,
}
use github_action_runners_mu.Prelude.Dict.{
  lookup, store, discard, occurs, occurs-discard, occurs_of_lookup, occurs-store_new, lookup-store,
  lookup-discard,
}
use github_action_runners_mu.Pool.{
  WarmWorker, ActiveWorker, broadcast, decrement, drop_active, handle_container_death, take_worker,
}
use github_action_runners_mu.Pool.System.{Hand, System}
use github_action_runners_mu.Pool.Counts.{IsCounted, drop_active-IsTallied}

-- Without an active worker, and without a worker of the pool.
pub active_gone-IsCounted :
    (id : String) (aw : ActiveWorker) (s : System)
    → lookup id s.orch.active_workers ≡ some aw
    → IsCounted s
    → IsCounted (record s { orch = drop_active id aw s.orch })
unfolding drop_active decrement
active_gone-IsCounted id aw s e h =
    let one : occurs id s.orch.active_workers ≤ 1 = ground (arith, h.owned id) in
    record {
      owned = λ j. ground (arith, h.owned j, occurs-discard j id s.orch.active_workers);
      keyed = h.keyed;
      tallied = drop_active-IsTallied id aw s.orch e one h.tallied;
      boots = h.boots;
      waits = h.waits;
    }

pub pool_gone-IsCounted :
    (id : String) (s : System)
    → IsCounted s
    → IsCounted (record s { orch = record s.orch { warm_pool = discard id s.orch.warm_pool } })
pool_gone-IsCounted id s h = record {
  owned = λ j. ground (arith, h.owned j, occurs-discard j id s.orch.warm_pool);
  keyed =
      ((λ j ww e. ground (arith, h.keyed.0 j ww, lookup-discard j id s.orch.warm_pool)), h.keyed.1);
  tallied = h.tallied;
  boots = h.boots;
  waits = h.waits;
}

-- A death takes the worker out of the pool or off the active ones.
pub death-IsCounted :
    (id : String) (s : System)
    → IsCounted s
    → IsCounted (record s { orch = (handle_container_death id s.orch).0 })
unfolding handle_container_death broadcast
death-IsCounted id s h = elim (Option-cases (lookup id s.orch.active_workers)) [
  | inr (aw, e) ↦ rw (e, handle_container_death) (active_gone-IsCounted id aw s e h)
  | inl n ↦ elim (Option-cases (lookup id s.orch.warm_pool)) [
    | inr (ww, e) ↦ rw (n, e, handle_container_death) (pool_gone-IsCounted id s h)
    | inl m ↦ rw (n, m, handle_container_death) h
  ]
]

-- The worker goes from the pool to the call that takes it.
pub take_worker-IsCounted :
    (id runner : String) (ww : WarmWorker) (s : System)
    → lookup id s.orch.warm_pool ≡ some ww
    → s.orch.pending_allocations ≡ suc (length s.waiting)
    → IsCounted (record s { orch = record s.orch { pending_allocations = length s.waiting } })
    → IsCounted (record s {
      orch = take_worker id s.orch;
      in_hand = store id (record { worker = ww; runner = runner; checked = false }) s.in_hand;
    })
unfolding take_worker
take_worker-IsCounted id runner ww s e w h =
    let hand : Hand = record { worker = ww; runner = runner; checked = false } in
    let here : 1 ≤ occurs id s.orch.warm_pool = occurs_of_lookup id s.orch.warm_pool ww e in
    let new : occurs id s.in_hand ≡ 0 = ground (arith, h.owned id, here) in
    record {
      owned = λ j. ground (
        arith,
        h.owned j,
        occurs-discard j id s.orch.warm_pool,
        occurs-store_new j id hand s.in_hand new,
        here,
      );
      keyed = (
        (λ j w k. ground (arith, h.keyed.0 j w, lookup-discard j id s.orch.warm_pool)),
        (λ j k l. ground (arith, h.keyed.1 j k, h.keyed.0 j ww, lookup-store j id hand s.in_hand)),
      );
      tallied = h.tallied;
      boots = h.boots;
      waits = ground (arith, w);
    }
