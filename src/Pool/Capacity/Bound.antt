-- ===== src/Pool/Capacity/Bound.antt =====
-- The bound on the workers (orchestrator/pool.go, maintainPool).
use github_action_runners_mu.Prelude.{
  ◌∙◌, List, [], ◌==◌, All, ℕ, suc, ◌+◌, ◌≤◌, inl, inr, true, false, Bool-cases, length, ◌≡◌, refl,
  not, ◌&&◌, some, ◌∷◌, arith, ltb, if_rule, of_guard, of_then, contains,
}
use github_action_runners_mu.Prelude.Text.{starts_with}
use github_action_runners_mu.Pool.{
  new_orchestrator, increment, at_least, total, update_settings, wants_worker, has_room,
  maintain_pool, Orchestrator, broadcast, finish_boot, ask_worker, give_up_worker,
}
use github_action_runners_mu.Pool.Names.{
  name_prefix_warm, name_prefix_active, parse_runner_from_active_name,
}
use github_action_runners_mu.Pool.Recovery.{
  Container, first_ip, container_name, recover_container, recover_containers, recover_state,
}
use github_action_runners_mu.Pool.System.{
  start, run, round, System, Event, remove_one, boot, step, settings, ask, wake, check, register,
  give_up, abort, pool_round, boot_error, late_broadcast, evaluate, boot_ok, recheck, die, deliver,
}
use github_action_runners_mu.Pool.Counts.{IsFresh, IsCounted}
use github_action_runners_mu.Pool.Counts.Start.{start-IsCounted}
use github_action_runners_mu.Pool.Counts.Steps.{step-IsCounted}
use github_action_runners_mu.Pool.Capacity.{HoldAtMost, IsWithin, Allows, weight}
use github_action_runners_mu.Prelude.Int.{ℤ, pos, negsuc}
use github_action_runners_mu.Prelude.Dict.{length-store}
use github_action_runners_mu.Pool.Capacity.Parts.{
  IsLighter, loop_round-IsLighter, check_hand-IsLighter, register_hand-IsLighter, death-IsLighter,
  abort-IsLighter, evaluate-IsLighter,
}
use mathlib.Core.Option.{some-injective}

-- The events but a new setting and a round of maintainPool add no worker.
abbrev IsPlain : Event → Type 0
IsPlain (settings m w) = ⊥
IsPlain pool_round = ⊥
IsPlain e = Unit

plain_step-IsLighter :
    (s : System) (e : Event) (t : System)
    → IsCounted s
    → IsPlain e
    → step s e ≡ some t
    → IsLighter s t
unfolding step broadcast ask_worker give_up_worker finish_boot boot weight
plain_step-IsLighter s (settings m w) t h p e = absurd p
plain_step-IsLighter s (ask runner choice) t h p e = loop_round-IsLighter choice runner _ t e
plain_step-IsLighter s (wake runner choice) t h p e =
    let (rest, k, l) = of_then (remove_one runner s.waiting) e in
    loop_round-IsLighter choice runner _ t l
plain_step-IsLighter s (check id choice) t h p e = check_hand-IsLighter id choice _ s t refl e
plain_step-IsLighter s (register id) t h p e = register_hand-IsLighter id _ s t refl e
plain_step-IsLighter s (give_up runner) t h p e =
    let (rest, k, l) = of_then (remove_one runner s.waiting) e in
    rw (← some-injective _ _ l) (refl, omega arith)
plain_step-IsLighter s (abort id) t h p e = rw (← some-injective _ _ e) (abort-IsLighter id s)
plain_step-IsLighter s pool_round t h p e = absurd p
plain_step-IsLighter s (boot_ok id ip r) t h p e =
    let (g, k) = of_guard (ltb 0 s.boots && not (contains s.used id)) e in
    rw (← k) (
      refl,
      ground (
        arith,
        g,
        h.boots,
        length-store id (record { container_id = id; ip_address = ip }) s.orch.warm_pool,
      ),
    )
plain_step-IsLighter s boot_error t h p e =
    rw (← (of_guard (ltb 0 s.boots) e).1) (refl, omega arith)
plain_step-IsLighter s (recheck id) t h p e =
    let (rest, k, l) = of_then (remove_one id s.rechecks) e in
    rw (← some-injective _ _ l) (
      if_rule (λ (o : Orchestrator). IsLighter s (record s { orch = o })) (contains s.running id)
        (λ q. (refl, omega arith)) λ q. death-IsLighter id s)
plain_step-IsLighter s late_broadcast t h p e =
    rw (← (of_guard (ltb 0 s.sleepers) e).1) (refl, omega arith)
plain_step-IsLighter s (die id) t h p e =
    rw (← (of_guard (contains s.running id) e).1) (refl, omega arith)
plain_step-IsLighter s (deliver id) t h p e =
    let (rest, k, l) = of_then (remove_one id s.deaths) e in
    rw (← some-injective _ _ l) (death-IsLighter id s)
plain_step-IsLighter s evaluate t h p e = rw (← some-injective _ _ e) (evaluate-IsLighter s)

room_below : (n b : ℕ) (m : ℤ) → at_least n m ≡ false → at_least b m ≡ true → suc n ≤ b
room_below n b (pos m) e h = ground arith
room_below n b (negsuc m) e h = ground arith

round-IsWithin :
    (bound k : ℕ) (s : System)
    → length s.in_hand ≤ k
    → IsWithin bound (bound + k) s
    → IsWithin bound (bound + k) (round s)
unfolding round maintain_pool wants_worker has_room weight total
round-IsWithin bound k s few (limit, small) =
    elim (Bool-cases (wants_worker s.orch && has_room s.orch)) [
      | inl y ↦
          rw (y, round, maintain_pool)
            (limit, ground (arith, y, few, room_below (total s.orch) bound s.orch.max_workers))
      | inr n ↦ rw (n, round, maintain_pool) (limit, small)
    ]

lighter-IsWithin :
    (bound most : ℕ) (s t : System) → IsLighter s t → IsWithin bound most s → IsWithin bound most t
lighter-IsWithin bound most s t (same, less) (limit, small) =
    (rw same limit, omega (arith, less, small))

step-IsWithin :
    (bound k : ℕ) (s : System) (e : Event) (t : System)
    → IsCounted s
    → Allows bound e
    → length s.in_hand ≤ k
    → IsWithin bound (bound + k) s
    → step s e ≡ some t
    → IsWithin bound (bound + k) t
unfolding step update_settings broadcast weight
step-IsWithin bound k s (settings m w) t h a few i e = rw (← some-injective _ _ e) (a, i.1)
step-IsWithin bound k s pool_round t h a few i e =
    rw (← (of_guard (not s.orch.listening) e).1) (round-IsWithin bound k s few i)
step-IsWithin bound k s e t h a few i r =
    lighter-IsWithin bound (bound + k) s t (plain_step-IsLighter s e t h tt r) i

run-IsWithin :
    (bound k : ℕ) (es : List Event) (s t : System)
    → IsCounted s
    → All (Allows bound) es
    → HoldAtMost k s es
    → IsWithin bound (bound + k) s
    → run s es ≡ some t
    → IsWithin bound (bound + k) t
unfolding run
run-IsWithin bound k [] s t h a few i r = rw (← some-injective _ _ r) i
run-IsWithin bound k (e ∷ es) s t h (a, allowed) (few, next) i r =
    let (u, q, l) = of_then (step s e) r in
    run-IsWithin bound k es u t (step-IsCounted s e u h q) allowed (rw q at next)
      (step-IsWithin bound k s e u h a few i q) l

recovered_one :
    (c : Container) (o : Orchestrator)
    → (total (recover_container c o) ≤ suc (total o))
      × ((recover_container c o).max_workers ≡ o.max_workers)
unfolding recover_container increment total
recovered_one c o =
    if_rule P (not (c.state == "running")) (λ _. (omega arith, refl))
      λ _.
        if_rule P (starts_with (container_name c) name_prefix_active)
          (λ _. (
            ground (
              arith,
              length-store c.id
                  (record {
                    container_id = c.id;
                    ip_address = first_ip c;
                    runner_name = parse_runner_from_active_name (container_name c);
                  })
                  o.active_workers,
            ),
            refl,
          ))
          λ _.
            if_rule P (starts_with (container_name c) name_prefix_warm)
              (λ _. (
                ground (
                  arith,
                  length-store c.id (record { container_id = c.id; ip_address = first_ip c })
                      o.warm_pool,
                ),
                refl,
              ))
              (λ _. (omega arith, refl))
  where
    P : Orchestrator → Type 0
    P x = (total x ≤ suc (total o)) × (x.max_workers ≡ o.max_workers)

recovered_weight :
    (cs : List Container) (o : Orchestrator)
    → (total (recover_containers cs o) ≤ total o + length cs)
      × ((recover_containers cs o).max_workers ≡ o.max_workers)
unfolding recover_containers total
recovered_weight [] o = (omega arith, refl)
recovered_weight (c ∷ cs) o =
    let (less, same) = recovered_weight cs (recover_container c o) in
    let (one, kept) = recovered_one c o in (omega (arith, less, one), same ∙ kept)

-- With limits of at most `bound`, at most as many containers when the program starts, and at most
-- `k` calls of AllocateWorker that hold a worker at a time, the warm, active and booting workers and
-- the held ones together are never more than `bound + k`.
pub run-weight_bound :
    (bound k : ℕ) (cs : List Container) (max_workers warm_workers : ℤ) (es : List Event)
    (t : System)
    → IsFresh cs []
    → length cs ≤ bound
    → at_least bound max_workers ≡ true
    → All (Allows bound) es
    → HoldAtMost k (start cs max_workers warm_workers) es
    → run (start cs max_workers warm_workers) es ≡ some t
    → total t.orch + length t.in_hand ≤ bound + k
unfolding weight total recover_state
run-weight_bound bound k cs m w es t f c b a few r =
    let (less, same) = recovered_weight cs (new_orchestrator m w) in
    (run-IsWithin bound k es (start cs m w) t (start-IsCounted cs m w f) a few
      (rw same b, ground (arith, less, c)) r).1
