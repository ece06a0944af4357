-- ===== src/Pool/Wakeups/Lost.antt =====
-- The two ways in which a call is left waiting that nobody wakes (orchestrator/allocate.go,
-- orchestrator.go).
use github_action_runners_mu.Prelude.{
  String, ◌≡◌, refl, ap, ◌∙◌, true, false, not, none, some, List, [], ◌∷◌, arith, of_then, of_guard,
  All, contains, filter, is_empty, if◌then◌else◌, ◌==◌, ==_refl,
}
use github_action_runners_mu.Prelude.Dict.{lookup, discard}
use github_action_runners_mu.Pool.{
  WarmWorker, ActiveWorker, at_least, total, decrement, drop_active, abort_worker, has_room,
  retry_worker,
}
use github_action_runners_mu.Pool.System.{
  System, Hand, Event, loop_round, check_hand, step, run, check, abort, die,
}
use github_action_runners_mu.Pool.Wakeups.{IsStuck, IsQuiet, run_stays}

-- A call of the runner holds a container that it has not looked at yet, maintainPool waits although
-- there is room, and nothing else is under way: no worker, no start of a container, no check of a
-- started one, no sleep after an error, and no other call that holds a worker.
pub record IsHolding (id runner : String) (s : System) : Type 0 where
  pub worker : WarmWorker
  pub holds : s.in_hand ≡ (id, record { worker = worker; runner = runner; checked = false }) ∷ []
  pub sleeps : s.orch.listening ≡ true
  pub no_warm : s.orch.warm_pool ≡ []
  pub no_active : s.orch.active_workers ≡ []
  pub no_boots : s.boots ≡ 0
  pub no_sleepers : s.sleepers ≡ 0
  pub no_rechecks : s.rechecks ≡ []
  pub room : has_room s.orch ≡ true

if_same {ℓ} : {A : Type ℓ} (id : String) (a b : A) → (if id == id then a else b) ≡ a
if_same id a b = rw (==_refl id) refl

contains-filter :
    (id : String) (xs : List String) → contains (filter (λ x. not (x == id)) xs) id ≡ false
contains-filter id [] = refl
contains-filter id (x ∷ xs) = ground (arith, contains-filter id xs)

dead-IsHolding :
    (id runner : String) (s t : System)
    → IsHolding id runner s
    → step s (die id) ≡ some t
    → IsHolding id runner t × (contains t.running id ≡ false)
unfolding step
dead-IsHolding id runner s t h e = rw (← (of_guard (contains s.running id) e).1) (
  record {
    worker = h.worker;
    holds = h.holds;
    sleeps = h.sleeps;
    no_warm = h.no_warm;
    no_active = h.no_active;
    no_boots = h.no_boots;
    no_sleepers = h.no_sleepers;
    no_rechecks = h.no_rechecks;
    room = h.room;
  },
  contains-filter id s.running,
)

checked-IsStuck :
    (id runner : String) (s t : System)
    → IsHolding id runner s
    → contains s.running id ≡ false
    → step s (check id none) ≡ some t
    → IsStuck runner t
unfolding step check_hand loop_round lookup discard retry_worker has_room total
checked-IsStuck id runner s t h dead e =
    let hand : Hand = record { worker = h.worker; runner = runner; checked = false } in
    let l : lookup id s.in_hand ≡ some hand =
      ap (lookup id) h.holds ∙ if_same id (some hand) none in
    let e' : check_hand id none (some hand) s ≡ some t = rw l at e in
    let e'' = rw dead at e' in
    rw (← (of_guard (is_empty s.orch.warm_pool) e'').1) (record {
      waits = ground arith;
      sleeps = h.sleeps;
      no_warm = h.no_warm;
      no_active = h.no_active;
      no_hand = ap (discard id) h.holds ∙ if_same id [] _;
      no_boots = h.no_boots;
      no_sleepers = h.no_sleepers;
      no_rechecks = h.no_rechecks;
      room = h.room;
    })

-- A lost wake-up: when nothing is under way but a call that holds a container which it has not
-- looked at yet, and maintainPool waits with room for another container, then if the held container
-- dies before the call looks, the call waits for ever, with that room and no container in the pool or
-- on its way, unless another call comes, one gives up, or the settings are changed.
pub lost_wake_up-IsStuck :
    (id runner : String) (s : System) (es : List Event) (t : System)
    → IsHolding id runner s
    → All IsQuiet es
    → run s (die id ∷ check id none ∷ es) ≡ some t
    → IsStuck runner t
unfolding run
lost_wake_up-IsStuck id runner s es t h q r =
    let (u, k, l) = of_then (step s (die id)) r in
    let (v, k', l') = of_then (step u (check id none)) l in
    let (h', dead) = dead-IsHolding id runner s u h k in
    run_stays runner es v t q (checked-IsStuck id runner u v h' dead k') l'

-- A call of the runner waits while another has the only worker, and nothing else is under way. Once
-- that worker is gone there is room.
pub record IsServing (id runner : String) (s : System) : Type 0 where
  pub worker : ActiveWorker
  pub waits : contains s.waiting runner ≡ true
  pub serves : s.orch.active_workers ≡ (id, worker) ∷ []
  pub sleeps : s.orch.listening ≡ true
  pub no_warm : s.orch.warm_pool ≡ []
  pub no_hand : s.in_hand ≡ []
  pub no_boots : s.boots ≡ 0
  pub no_sleepers : s.sleepers ≡ 0
  pub no_rechecks : s.rechecks ≡ []
  pub room : at_least s.orch.booting_count s.orch.max_workers ≡ false

aborted :
    (id runner : String) (s : System)
    → IsServing id runner s
    → IsStuck runner (record s { orch = (abort_worker id s.orch).0 })
unfolding abort_worker drop_active decrement lookup discard has_room total
aborted id runner s h =
    let l : lookup id s.orch.active_workers ≡ some h.worker =
      ap (lookup id) h.serves ∙ if_same id (some h.worker) none in
    let d : discard id s.orch.active_workers ≡ [] = ap (discard id) h.serves ∙ if_same id [] _ in
    rw (l, abort_worker)
      (record {
        waits = h.waits;
        sleeps = h.sleeps;
        no_warm = h.no_warm;
        no_active = d;
        no_hand = h.no_hand;
        no_boots = h.no_boots;
        no_sleepers = h.no_sleepers;
        no_rechecks = h.no_rechecks;
        room = rw (h.no_warm, d) (ground (arith, h.room));
      })

-- Another lost wake-up: when a call waits while another has the only worker, nothing else is under
-- way, maintainPool waits, and the limit has room once that worker is gone, then if the worker is
-- aborted, neither the abort nor the death of its container wakes maintainPool: the call waits for
-- ever, with that room and no container in the pool or on its way, unless another call comes, one
-- gives up, or the settings are changed.
pub lost_slot-IsStuck :
    (id runner : String) (s : System) (es : List Event) (t : System)
    → IsServing id runner s
    → All IsQuiet es
    → run s (abort id ∷ es) ≡ some t
    → IsStuck runner t
unfolding run step
lost_slot-IsStuck id runner s es t h q r = run_stays runner es _ t q (aborted id runner s h) r
