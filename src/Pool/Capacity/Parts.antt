-- ===== src/Pool/Capacity/Parts.antt =====
-- Of the parts of the steps (orchestrator/allocate.go, events.go), none adds a worker.
use github_action_runners_mu.Prelude.{
  ◌≤◌, String, ◌≡◌, refl, inl, inr, true, false, not, ◌&&◌, Option, none, some, arith, Option-cases,
  if_rule, of_guard, of_if, of_then, is_empty, contains,
}
use github_action_runners_mu.Prelude.Dict.{
  lookup, length-store, length-store_old, length-discard, length-discard_found,
}
use github_action_runners_mu.Pool.{
  Orchestrator, at_least, broadcast, increment, decrement, drop_active, abort_worker,
  handle_container_death, total_assigned, Pausing, evaluate_capacity, take_worker, register_worker,
  retry_worker,
}
use github_action_runners_mu.Pool.System.{Hand, System, loop_round, check_hand, register_hand}
use github_action_runners_mu.Pool.Capacity.{weight}
use mathlib.Core.Option.{none-ne-some, some-injective}

-- The limit is the same, and the workers are not more.
abbrev pub IsLighter : System → System → Type 0
IsLighter s t = (t.orch.max_workers ≡ s.orch.max_workers) × (weight t ≤ weight s)

pub loop_round-IsLighter :
    (choice : Option String) (runner : String) (s t : System)
    → loop_round choice runner s ≡ some t
    → IsLighter s t
unfolding loop_round take_worker weight
loop_round-IsLighter none runner s t e =
    rw (← (of_guard (is_empty s.orch.warm_pool) e).1) (refl, omega arith)
loop_round-IsLighter (some id) runner s t e =
    let (ww, k, l) = of_then (lookup id s.orch.warm_pool) e in
    rw (← some-injective _ _ l) (
      refl,
      ground (
        arith,
        length-discard_found id ww s.orch.warm_pool,
        length-store id (record { worker = ww; runner = runner; checked = false }) s.in_hand,
      ),
    )

pub check_hand-IsLighter :
    (id : String) (choice : Option String) (held : Option Hand) (s t : System)
    → lookup id s.in_hand ≡ held
    → check_hand id choice held s ≡ some t
    → IsLighter s t
unfolding check_hand retry_worker weight
check_hand-IsLighter id choice none s t l e = absurd (none-ne-some _ e)
check_hand-IsLighter id choice (some held) s t l e = elim (of_if (contains s.running id) e) [
  | inl m ↦
      rw (← m)
        (refl, ground (arith, length-store_old id (record held { checked = true }) held s.in_hand))
  | inr m ↦
      let (same, less) = loop_round-IsLighter choice held.runner _ t m in
      (same, ground (arith, less, length-discard id s.in_hand))
]

pub register_hand-IsLighter :
    (id : String) (held : Option Hand) (s t : System)
    → lookup id s.in_hand ≡ held
    → register_hand id held s ≡ some t
    → IsLighter s t
unfolding register_hand register_worker increment broadcast weight
register_hand-IsLighter id none s t l e = absurd (none-ne-some _ e)
register_hand-IsLighter id (some held) s t l e = rw (← (of_guard held.checked e).1) (
  refl,
  ground (
    arith,
    length-discard_found id held s.in_hand,
    length-store held.worker.container_id
        (record {
          container_id = held.worker.container_id;
          ip_address = held.worker.ip_address;
          runner_name = held.runner;
        })
        s.orch.active_workers,
  ),
)

pub death-IsLighter :
    (id : String) (s : System)
    → IsLighter s (record s { orch = (handle_container_death id s.orch).0 })
unfolding handle_container_death drop_active decrement broadcast weight
death-IsLighter id s = elim (Option-cases (lookup id s.orch.active_workers)) [
  | inr (aw, e) ↦
      rw (e, handle_container_death) (refl, ground (arith, length-discard id s.orch.active_workers))
  | inl n ↦ elim (Option-cases (lookup id s.orch.warm_pool)) [
    | inr (ww, e) ↦
        rw (n, e, handle_container_death) (refl, ground (arith, length-discard id s.orch.warm_pool))
    | inl m ↦ rw (n, m, handle_container_death) (refl, omega arith)
  ]
]

pub abort-IsLighter :
    (id : String) (s : System) → IsLighter s (record s { orch = (abort_worker id s.orch).0 })
unfolding abort_worker drop_active decrement weight
abort-IsLighter id s = elim (Option-cases (lookup id s.orch.active_workers)) [
  | inr (aw, e) ↦
      rw (e, abort_worker) (refl, ground (arith, length-discard id s.orch.active_workers))
  | inl n ↦ rw (n, abort_worker) (refl, omega arith)
]

pub evaluate-IsLighter :
    (s : System) → IsLighter s (record s { orch = (evaluate_capacity s.orch).0 })
unfolding evaluate_capacity weight
evaluate-IsLighter s =
    if_rule {A = Orchestrator × Pausing} (λ x. IsLighter s (record s { orch = x.0 }))
      (at_least (total_assigned s.orch.active_listeners) s.orch.max_workers && not s.orch.is_paused)
      (λ p. (refl, omega arith))
      λ p.
        if_rule {A = Orchestrator × Pausing} (λ x. IsLighter s (record s { orch = x.0 }))
          (not (at_least (total_assigned s.orch.active_listeners) s.orch.max_workers)
            && s.orch.is_paused)
          (λ q. (refl, omega arith)) λ q. (refl, omega arith)
