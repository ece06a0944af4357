-- ===== src/Pool/Capacity/Freezing.antt =====
-- What evaluateCapacity (orchestrator/events.go) means, with the manager that it tells to freeze
-- listeners (pkg/standalone/pauser.go).
use github_action_runners_mu.Prelude.{
  ℕ, String, ◌≡◌, refl, sym, ◌∙◌, ◌≢◌, Bool, false, some, List, [], ◌∷◌, arith, length, contains,
  ap, if◌then◌else◌, ◌&&◌, not, inl, inr, Bool-cases, true, ==_iff, ◌==◌,
}
use github_action_runners_mu.Prelude.Dict.{Dict, lookup}
use github_action_runners_mu.Pool.{
  Orchestrator, at_least, count, busy_runners, Pausing, evaluate_capacity,
}
use github_action_runners_mu.Pool.System.{System}
use github_action_runners_mu.Pool.Counts.{workers_of, IsCounted}
use github_action_runners_mu.Mux.{Process, paused}
use github_action_runners_mu.Mux.Standalone.{Standalone, freeze, lock_others, is_online, signalled}
use mathlib.Core.Option.{some-injective}

-- After an evaluation the orchestrator is paused exactly if there are as many active workers as the
-- limit allows.
evaluate_capacity-is_paused :
    (s : System)
    → IsCounted s
    → (evaluate_capacity s.orch).0.is_paused
      ≡ at_least (length s.orch.active_workers) s.orch.max_workers
unfolding evaluate_capacity
evaluate_capacity-is_paused s h = rw (← h.tallied.1) (ground arith)

told_busy :
    (o : Orchestrator) (rs : List String)
    → (evaluate_capacity o).1 ≡ Pausing.lock_others rs
    → rs ≡ busy_runners o.active_listeners
unfolding evaluate_capacity
told_busy o rs e = ground (arith, e)

busy_runners-count :
    (name : String) (m : Dict ℕ) → contains (busy_runners m) name ≡ false → count name m ≡ 0
unfolding busy_runners count lookup
busy_runners-count name [] h = refl
busy_runners-count name ((j, k) ∷ m) h = ground (arith, busy_runners-count name m)

frozen_only :
    (b : Bool) (p q : Process)
    → (if b then record p { state = paused } else p) ≡ q
    → p.state ≢ paused
    → q.state ≡ paused
    → b ≡ true
frozen_only true p q e n s = refl
frozen_only false p q e n s = absurd (n (ap (λ x. x.state) e ∙ s))

freeze-contains :
    (stops : ℕ → Bool) (active : List String) (groups : Dict ℕ) (ps : Dict Process) (name : String)
    (p q : Process)
    → lookup name ps ≡ some p
    → p.state ≢ paused
    → lookup name (freeze stops active groups ps) ≡ some q
    → q.state ≡ paused
    → contains active name ≡ false
unfolding freeze lookup
freeze-contains stops active groups [] name p q k n l s = ground arith
freeze-contains stops active groups ((j, r) ∷ ps) name p q k n l s = elim (Bool-cases (j == name)) [
  | inl y ↦
      let b : Bool = is_online r.state && not (contains active j) && signalled stops j groups in
      let same : r ≡ p = some-injective r p (rw y at k) in
      let frozen : b ≡ true = frozen_only b r q (some-injective _ q (rw y at l)) (rw same n) s in
      rw (← (==_iff j name).0 y) (ground (arith, frozen))
  | inr d ↦ freeze-contains stops active groups ps name p q (rw d at k) n (rw d at l) s
]

-- A listener that the evaluation of the capacity freezes has no active worker.
pub lock_others-workers_of :
    (stops : ℕ → Bool) (rs : List String) (s : System) (m : Standalone) (name : String)
    (p q : Process)
    → IsCounted s
    → (evaluate_capacity s.orch).1 ≡ Pausing.lock_others rs
    → lookup name m.processes ≡ some p
    → p.state ≢ paused
    → lookup name (lock_others stops rs m).processes ≡ some q
    → q.state ≡ paused
    → workers_of name s.orch.active_workers ≡ 0
unfolding lock_others
lock_others-workers_of stops rs s m name p q h e k n l w =
    let idle : contains rs name ≡ false =
      freeze-contains stops rs m.listener_data m.processes name p q k n l w in
    sym (h.tallied.0 name)
    ∙ busy_runners-count name s.orch.active_listeners (rw (← told_busy s.orch rs e) idle)
