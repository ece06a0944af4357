-- ===== src/Pool/Wakeups.antt =====
-- Who wakes whom (orchestrator/pool.go, allocate.go, orchestrator.go): the calls that free a slot or
-- drop a worker, and the lists that wait for the broadcast.
pub mod Lost
use github_action_runners_mu.Pool.{
  count, increment, decrement, drop_active, register_worker, new_orchestrator, broadcast, total,
  wants_worker, has_room, maintain_pool, finish_boot, ask_worker, take_worker, retry_worker,
  WarmWorker, ActiveWorker, at_least, total_assigned, Pausing, Orchestrator, abort_worker,
  handle_container_death, evaluate_capacity,
}
use github_action_runners_mu.Prelude.{
  ◌++◌, ℕ, suc, ap, ◌∙◌, Bool, not, ◌&&◌, if_rule, of_then, All, String, ◌≡◌, refl, inl, inr, true,
  Option, none, some, List, [], ◌∷◌, arith, Option-cases, of_guard, is_empty, contains,
}
use github_action_runners_mu.Prelude.Dict.{store, discard, Dict, lookup}
use github_action_runners_mu.Pool.Recovery.{recover_containers, recover_state}
use github_action_runners_mu.Pool.System.{
  round, boot, Hand, start, run, System, Event, remove_one, loop_round, check_hand, register_hand,
  step, settings, ask, wake, check, register, give_up, abort, pool_round, boot_error,
  late_broadcast, evaluate, boot_ok, recheck, die, deliver,
}
use github_action_runners_mu.Prelude.Int.{pos}
use mathlib.Core.Option.{none-ne-some, some-injective}

-- A call for the runner waits, the pool is empty, maintainPool waits although there is room for a
-- container, and no goroutine is left that would broadcast.
pub record AreStuck (runner : String) (waiting : List String) (listening : Bool)
    (warm : Dict WarmWorker) (active : Dict ActiveWorker) (hands : Dict Hand) (starts sleeping : ℕ)
    (checks : List String) (has_room : Bool) : Type 0 where
  pub waits : contains waiting runner ≡ true
  pub sleeps : listening ≡ true
  pub no_warm : warm ≡ []
  pub no_active : active ≡ []
  pub no_hand : hands ≡ []
  pub no_boots : starts ≡ 0
  pub no_sleepers : sleeping ≡ 0
  pub no_rechecks : checks ≡ []
  pub room : has_room ≡ true

abbrev pub IsStuck : String → System → Type 0
IsStuck runner s =
    AreStuck runner s.waiting s.orch.listening s.orch.warm_pool s.orch.active_workers s.in_hand
      s.boots s.sleepers s.rechecks (has_room s.orch)

-- Nobody asks for a worker, gives up, or changes the settings.
abbrev pub IsQuiet : Event → Type 0
IsQuiet (settings m w) = ⊥
IsQuiet (ask runner choice) = ⊥
IsQuiet (give_up runner) = ⊥
IsQuiet e = Unit

remove_one-contains :
    (k r : String) (xs rest : List String)
    → remove_one k xs ≡ some rest
    → contains (k ∷ rest) r ≡ contains xs r
unfolding remove_one
remove_one-contains k r [] rest e = ground arith
remove_one-contains k r (x ∷ xs) rest e = elim (Option-cases (remove_one k xs)) [
  | inl n ↦ ground arith
  | inr (ys, m) ↦ ground (arith, remove_one-contains k r xs ys m)
]

death_nothing :
    (id : String) (o : Orchestrator)
    → o.warm_pool ≡ []
    → o.active_workers ≡ []
    → (handle_container_death id o).0 ≡ o
unfolding handle_container_death lookup
death_nothing id o w a =
    let e : lookup id o.active_workers ≡ none = ap (lookup id) a in
    let d : lookup id o.warm_pool ≡ none = ap (lookup id) w in
    rw (e, d, handle_container_death) refl

abort_nothing : (id : String) (o : Orchestrator) → o.active_workers ≡ [] → (abort_worker id o).0 ≡ o
unfolding abort_worker lookup
abort_nothing id o a =
    let e : lookup id o.active_workers ≡ none = ap (lookup id) a in rw (e, abort_worker) refl

loop_stays :
    (choice : Option String) (runner r : String) (s t : System)
    → IsStuck runner (record s { waiting = r ∷ s.waiting })
    → loop_round choice r s ≡ some t
    → IsStuck runner t
unfolding loop_round lookup
loop_stays none runner r s t h e = rw (← (of_guard (is_empty s.orch.warm_pool) e).1) h
loop_stays (some id) runner r s t h e = absurd (none-ne-some t (rw (h.no_warm, loop_round) at e))

step_stays :
    (runner : String) (s : System) (e : Event) (t : System)
    → IsQuiet e
    → IsStuck runner s
    → step s e ≡ some t
    → IsStuck runner t
unfolding step lookup check_hand register_hand remove_one evaluate_capacity has_room total
step_stays runner s (settings m w) t q h e = absurd q
step_stays runner s (ask r choice) t q h e = absurd q
step_stays runner s (give_up r) t q h e = absurd q
step_stays runner s (wake r choice) t q h e =
    let (rest, k, l) = of_then (remove_one r s.waiting) e in
    loop_stays choice runner r _ t
      (record {
        waits = remove_one-contains r runner s.waiting rest k ∙ h.waits;
        sleeps = h.sleeps;
        no_warm = h.no_warm;
        no_active = h.no_active;
        no_hand = h.no_hand;
        no_boots = h.no_boots;
        no_sleepers = h.no_sleepers;
        no_rechecks = h.no_rechecks;
        room = h.room;
      })
      l
step_stays runner s (check id choice) t q h e = absurd (none-ne-some t (rw h.no_hand at e))
step_stays runner s (register id) t q h e = absurd (none-ne-some t (rw h.no_hand at e))
step_stays runner s (abort id) t q h e =
    rw (← some-injective _ _ e, abort_nothing id s.orch h.no_active) h
step_stays runner s pool_round t q h e = absurd (none-ne-some t (rw h.sleeps at e))
step_stays runner s (boot_ok id ip r) t q h e = absurd (none-ne-some t (rw h.no_boots at e))
step_stays runner s boot_error t q h e = absurd (none-ne-some t (rw h.no_boots at e))
step_stays runner s (recheck id) t q h e = absurd (none-ne-some t (rw h.no_rechecks at e))
step_stays runner s late_broadcast t q h e = absurd (none-ne-some t (rw h.no_sleepers at e))
step_stays runner s (die id) t q h e = rw (← (of_guard (contains s.running id) e).1) h
step_stays runner s (deliver id) t q h e =
    let (rest, k, l) = of_then (remove_one id s.deaths) e in
    rw (← some-injective _ _ l, death_nothing id s.orch h.no_warm h.no_active) h
step_stays runner s evaluate t q h e = rw (← some-injective _ _ e) (
    if_rule {A = Orchestrator × Pausing} (λ x. IsStuck runner (record s { orch = x.0 }))
      (at_least (total_assigned s.orch.active_listeners) s.orch.max_workers && not s.orch.is_paused)
      (λ p. h)
      λ p.
        if_rule {A = Orchestrator × Pausing} (λ x. IsStuck runner (record s { orch = x.0 }))
          (not (at_least (total_assigned s.orch.active_listeners) s.orch.max_workers)
            && s.orch.is_paused)
          (λ q. h) λ q. h)

pub run_stays :
    (runner : String) (es : List Event) (s t : System)
    → All IsQuiet es
    → IsStuck runner s
    → run s es ≡ some t
    → IsStuck runner t
unfolding run
run_stays runner [] s t q h e = rw (← some-injective _ _ e) h
run_stays runner (e ∷ es) s t (q, qs) h r =
    let (u, k, l) = of_then (step s e) r in
    run_stays runner es u t qs (step_stays runner s e u q h k) l
