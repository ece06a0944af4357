-- ===== src/Pool/Counts/Steps.antt =====
-- The steps (orchestrator/pool.go, allocate.go, events.go) keep the counters true.
use github_action_runners_mu.Pool.Recovery.{Container}
use github_action_runners_mu.Pool.Counts.{IsFresh, IsCounted, register_worker-IsTallied, recounted}
use github_action_runners_mu.Pool.Counts.Start.{start-IsCounted}
use github_action_runners_mu.Prelude.{
  Bool-cases, if_rule, Bool, false, not, ◌&&◌, ltb, suc, ◌≤◌, String, ◌≡◌, refl, inl, inr, true,
  Option, none, some, List, [], ◌∷◌, arith, Option-cases, of_guard, of_if, of_then, length,
  is_empty, contains,
}
use github_action_runners_mu.Pool.{
  at_least, update_settings, wants_worker, has_room, ask_worker, give_up_worker, Pausing,
  Orchestrator, WarmWorker, abort_worker, evaluate_capacity, maintain_pool, finish_boot, broadcast,
  increment, total_assigned, register_worker, retry_worker,
}
use github_action_runners_mu.Pool.Counts.Parts.{
  death-IsCounted, active_gone-IsCounted, take_worker-IsCounted,
}
use github_action_runners_mu.Prelude.Dict.{
  lookup, discard, occurs, occurs-discard, occurs_of_lookup, occurs-store_new, occurs-store_old,
  lookup-store, lookup-discard,
}
use github_action_runners_mu.Pool.System.{
  Event, round, boot, step, settings, ask, wake, check, register, give_up, abort, pool_round,
  boot_error, late_broadcast, evaluate, boot_ok, recheck, die, deliver, run, run_rule, Hand, System,
  start, remove_one, loop_round, check_hand, register_hand,
}
use github_action_runners_mu.Prelude.Int.{ℤ}
use mathlib.Core.Option.{none-ne-some, some-injective}

remove_one-length :
    (k : String) (xs : List String) (rest : List String)
    → remove_one k xs ≡ some rest
    → length xs ≡ suc (length rest)
unfolding remove_one
remove_one-length k [] rest e = ground arith
remove_one-length k (x ∷ xs) rest e = elim (Option-cases (remove_one k xs)) [
  | inl n ↦ ground arith
  | inr (r, m) ↦ ground (arith, remove_one-length k xs r m)
]

register_worker-IsCounted :
    (id : String) (held : Hand) (s : System)
    → lookup id s.in_hand ≡ some held
    → IsCounted s
    → IsCounted (record s {
      orch = register_worker held.worker held.runner s.orch;
      in_hand = discard id s.in_hand;
    })
unfolding register_worker increment broadcast
register_worker-IsCounted id held s l h =
    let here : 1 ≤ occurs id s.in_hand = occurs_of_lookup id s.in_hand held l in
    let same : held.worker.container_id ≡ id = h.keyed.1 id held l in
    let new : occurs held.worker.container_id s.orch.active_workers ≡ 0 =
      rw same (ground (arith, h.owned id, here)) in
    record {
      owned = λ j. ground (
        arith,
        h.owned j,
        here,
        occurs-discard j id s.in_hand,
        occurs-store_new j held.worker.container_id
            (record {
              container_id = held.worker.container_id;
              ip_address = held.worker.ip_address;
              runner_name = held.runner;
            })
            s.orch.active_workers new,
      );
      keyed = (h.keyed.0, λ j k m. ground (arith, h.keyed.1 j k, lookup-discard j id s.in_hand));
      tallied = register_worker-IsTallied held.worker held.runner s.orch new h.tallied;
      boots = h.boots;
      waits = h.waits;
    }

-- A round of the loop, of a call that is counted as waiting.
loop_round-IsCounted :
    (choice : Option String) (runner : String) (s t : System)
    → s.orch.pending_allocations ≡ suc (length s.waiting)
    → IsCounted (record s { orch = record s.orch { pending_allocations = length s.waiting } })
    → loop_round choice runner s ≡ some t
    → IsCounted t
unfolding loop_round
loop_round-IsCounted none runner s t w h e =
    rw (← (of_guard (is_empty s.orch.warm_pool) e).1) (recounted h h.boots w)
loop_round-IsCounted (some id) runner s t w h e =
    let (ww, k, l) = of_then (lookup id s.orch.warm_pool) e in
    rw (← some-injective _ _ l) (take_worker-IsCounted id runner ww s k w h)

-- The worker is dropped, and the call is counted as waiting again.
retry_waits :
    (s : System) → IsCounted s → (retry_worker s.orch).pending_allocations ≡ suc (length s.waiting)
unfolding retry_worker
retry_waits s h = ground (arith, h.waits)

retry-IsCounted :
    (id : String) (s : System)
    → IsCounted s
    → IsCounted (record s {
      orch = record (retry_worker s.orch) { pending_allocations = length s.waiting };
      in_hand = discard id s.in_hand;
    })
unfolding retry_worker
retry-IsCounted id s h = record {
  owned = λ j. ground (arith, h.owned j, occurs-discard j id s.in_hand);
  keyed = (h.keyed.0, λ j k e. ground (arith, h.keyed.1 j k, lookup-discard j id s.in_hand));
  tallied = h.tallied;
  boots = h.boots;
  waits = refl;
}

check_hand-IsCounted :
    (id : String) (choice : Option String) (held : Option Hand) (s t : System)
    → lookup id s.in_hand ≡ held
    → IsCounted s
    → check_hand id choice held s ≡ some t
    → IsCounted t
unfolding check_hand
check_hand-IsCounted id choice none s t l h e = absurd (none-ne-some _ e)
check_hand-IsCounted id choice (some held) s t l h e = elim (of_if (contains s.running id) e) [
  | inl m ↦ rw (← m) (record {
    owned = λ j. ground (
      arith,
      h.owned j,
      occurs-store_old j id (record held { checked = true }) s.in_hand
          (occurs_of_lookup id s.in_hand held l),
    );
    keyed = (
      h.keyed.0,
      λ j k m. ground (
        arith,
        h.keyed.1 j k,
        h.keyed.1 id held l,
        lookup-store j id (record held { checked = true }) s.in_hand,
      ),
    );
    tallied = h.tallied;
    boots = h.boots;
    waits = h.waits;
  })
  | inr m ↦ loop_round-IsCounted choice held.runner _ t (retry_waits s h) (retry-IsCounted id s h) m
]

register_hand-IsCounted :
    (id : String) (held : Option Hand) (s t : System)
    → lookup id s.in_hand ≡ held
    → IsCounted s
    → register_hand id held s ≡ some t
    → IsCounted t
unfolding register_hand
register_hand-IsCounted id none s t l h e = absurd (none-ne-some _ e)
register_hand-IsCounted id (some held) s t l h e =
    rw (← (of_guard held.checked e).1) (register_worker-IsCounted id held s l h)

-- A started container is new, and a failed start changes the count only.
boot-IsCounted :
    (id ip : String) (is_running : Bool) (s : System)
    → contains s.used id ≡ false
    → IsCounted s
    → IsCounted (boot id ip is_running s)
unfolding boot finish_boot
boot-IsCounted id ip r s new h =
    let ww : WarmWorker = record { container_id = id; ip_address = ip } in
    let out : occurs id s.orch.warm_pool ≡ 0 = ground (arith, h.owned id) in
    record {
      owned =
          λ j. ground (arith, h.owned j, h.owned id, occurs-store_new j id ww s.orch.warm_pool out);
      keyed = (
        (λ j w e. ground (arith, h.keyed.0 j w, lookup-store j id ww s.orch.warm_pool)),
        h.keyed.1,
      );
      tallied = h.tallied;
      boots = ground (arith, h.boots);
      waits = h.waits;
    }

abort-IsCounted :
    (id : String) (s : System)
    → IsCounted s
    → IsCounted (record s { orch = (abort_worker id s.orch).0 })
unfolding abort_worker
abort-IsCounted id s h = elim (Option-cases (lookup id s.orch.active_workers)) [
  | inr (aw, e) ↦ rw (e, abort_worker) (active_gone-IsCounted id aw s e h)
  | inl n ↦ rw (n, abort_worker) h
]

evaluate-IsCounted :
    (s : System) → IsCounted s → IsCounted (record s { orch = (evaluate_capacity s.orch).0 })
unfolding evaluate_capacity
evaluate-IsCounted s h =
    if_rule {A = Orchestrator × Pausing} (λ x. IsCounted (record s { orch = x.0 }))
      (at_least (total_assigned s.orch.active_listeners) s.orch.max_workers && not s.orch.is_paused)
      (λ p. h)
      λ p.
        if_rule {A = Orchestrator × Pausing} (λ x. IsCounted (record s { orch = x.0 }))
          (not (at_least (total_assigned s.orch.active_listeners) s.orch.max_workers)
            && s.orch.is_paused)
          (λ q. h) λ q. h

round-IsCounted : (s : System) → IsCounted s → IsCounted (round s)
unfolding round maintain_pool
round-IsCounted s h = elim (Bool-cases (wants_worker s.orch && has_room s.orch)) [
  | inl y ↦
      rw (y, round, maintain_pool)
        (recounted {warm = s.orch.warm_pool} {listeners = s.orch.active_listeners} h
          (ground (arith, h.boots)) h.waits)
  | inr n ↦ rw (n, round, maintain_pool) h
]

pub step-IsCounted :
    (s : System) (e : Event) (t : System) → IsCounted s → step s e ≡ some t → IsCounted t
unfolding step broadcast update_settings ask_worker give_up_worker finish_boot
step-IsCounted s (settings m w) t h e = rw (← some-injective _ _ e) h
step-IsCounted s (ask runner choice) t h e =
    loop_round-IsCounted choice runner _ t (ground (arith, h.waits)) (recounted h h.boots refl) e
step-IsCounted s (wake runner choice) t h e =
    let (rest, k, l) = of_then (remove_one runner s.waiting) e in
    loop_round-IsCounted choice runner _ t
      (ground (arith, h.waits, remove_one-length runner s.waiting rest k))
      (recounted h h.boots refl) l
step-IsCounted s (check id choice) t h e = check_hand-IsCounted id choice _ s t refl h e
step-IsCounted s (register id) t h e = register_hand-IsCounted id _ s t refl h e
step-IsCounted s (give_up runner) t h e =
    let (rest, k, l) = of_then (remove_one runner s.waiting) e in
    rw (← some-injective _ _ l)
      (recounted h h.boots (ground (arith, h.waits, remove_one-length runner s.waiting rest k)))
step-IsCounted s (abort id) t h e = rw (← some-injective _ _ e) (abort-IsCounted id s h)
step-IsCounted s pool_round t h e =
    rw (← (of_guard (not s.orch.listening) e).1) (round-IsCounted s h)
step-IsCounted s (boot_ok id ip r) t h e =
    let (g, k) = of_guard (ltb 0 s.boots && not (contains s.used id)) e in
    rw (← k) (boot-IsCounted id ip r s (ground (arith, g)) h)
step-IsCounted s boot_error t h e =
    rw (← (of_guard (ltb 0 s.boots) e).1) (recounted h (ground (arith, h.boots)) h.waits)
step-IsCounted s (recheck id) t h e =
    let (rest, k, l) = of_then (remove_one id s.rechecks) e in
    rw (← some-injective _ _ l) (
      if_rule (λ (o : Orchestrator). IsCounted (record s { orch = o })) (contains s.running id)
        (λ p. h) λ p. death-IsCounted id s h)
step-IsCounted s late_broadcast t h e = rw (← (of_guard (ltb 0 s.sleepers) e).1) h
step-IsCounted s (die id) t h e = rw (← (of_guard (contains s.running id) e).1) h
step-IsCounted s (deliver id) t h e =
    let (rest, k, l) = of_then (remove_one id s.deaths) e in
    rw (← some-injective _ _ l) (death-IsCounted id s h)
step-IsCounted s evaluate t h e = rw (← some-injective _ _ e) (evaluate-IsCounted s h)

-- In each state that the orchestrator reaches from its start, among any containers with different
-- identifiers and in any order of the events, a worker
-- is at one place at most (in the pool, with a call, or active), the number of active workers that
-- each runner is counted with is the number it has, `bootingCount` is the number of starts in
-- flight, and `pendingAllocations` is the number of calls that wait for a worker.
pub run-IsCounted :
    (cs : List Container) (max_workers warm_workers : ℤ) (es : List Event) (t : System)
    → IsFresh cs []
    → run (start cs max_workers warm_workers) es ≡ some t
    → IsCounted t
run-IsCounted cs m w es t f e =
    run_rule IsCounted step-IsCounted (start cs m w) es t (start-IsCounted cs m w f) e
