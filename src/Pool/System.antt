-- ===== src/Pool/System.antt =====
-- The orchestrator among its goroutines and the containers (orchestrator/pool.go, allocate.go,
-- events.go). A step is what one goroutine does while it holds the mutex, or what Docker does; the
-- events of a list follow each other in any order that the code allows.
use github_action_runners_mu.Pool.Recovery.{Container, recover_state}
use github_action_runners_mu.Prelude.{
  ℕ, suc, ◌-◌, String, ◌≡◌, inl, inr, Bool, true, false, not, ◌&&◌, Option, none, some, List, [],
  ◌∷◌, ltb, if◌then◌else◌, ◌==◌, Option-cases, filter, is_empty, contains,
}
use github_action_runners_mu.Prelude.Int.{ℤ}
use github_action_runners_mu.Prelude.Dict.{Dict, lookup, store, discard}
use github_action_runners_mu.Pool.{
  WarmWorker, Orchestrator, new_orchestrator, broadcast, update_settings, abort_worker,
  handle_container_death, evaluate_capacity, maintain_pool, finish_boot, ask_worker, take_worker,
  register_worker, retry_worker, give_up_worker,
}
use mathlib.Core.Option.{none-ne-some, some-injective}

-- A worker that AllocateWorker has taken out of the pool and not registered yet, and whether the
-- check that its container lives is behind it.
pub record Hand : Type 0 where
  pub worker : WarmWorker
  pub runner : String
  pub checked : Bool

pub record System : Type 0 where
  pub orch : Orchestrator
  -- goroutines that start a container, that check a started one, and that sleep after an error
  pub boots : ℕ
  pub rechecks : List String
  pub sleepers : ℕ
  -- calls of AllocateWorker that wait, by their runners, and that hold a worker
  pub waiting : List String
  pub in_hand : Dict Hand
  -- containers that run, deaths that Docker has to report yet, and all identifiers given out
  pub running : List String
  pub deaths : List String
  pub used : List String

abbrev pub running_ids : List Container → List String
running_ids [] = []
running_ids (c ∷ cs) =
    let rest = running_ids cs in if c.state == "running" then c.id ∷ rest else rest

-- The identifiers of containers, before some others.
abbrev pub seen : List Container → List String → List String
seen [] ids = ids
seen (c ∷ cs) ids = seen cs (c.id ∷ ids)

-- NewOrchestrator, among the containers that Docker has: those of an earlier run.
abbrev pub start : List Container → ℤ → ℤ → System
start cs max_workers warm_workers = record {
  orch = recover_state (some cs) (new_orchestrator max_workers warm_workers);
  boots = 0;
  rechecks = [];
  sleepers = 0;
  waiting = [];
  in_hand = [];
  running = running_ids cs;
  deaths = [];
  used = seen cs [];
}

-- Where a round of AllocateWorker's loop takes a worker, the event names it: the range over the map
-- may meet any.
pub data Event : Type 0 where
  settings : (max_workers warm_workers : ℤ) → Event
  ask wake : (runner : String) → Option String → Event
  check : (id : String) → Option String → Event
  register give_up abort : String → Event
  pool_round boot_error late_broadcast evaluate : Event
  boot_ok : (id ip : String) → (is_running : Bool) → Event
  recheck die deliver : String → Event

-- One occurrence less; `none` where there is none.
unfoldable pub remove_one : String → List String → Option (List String)
remove_one k [] = none
remove_one k (x ∷ xs) =
    if x == k then some xs else elim (remove_one k xs) [ none ↦ none | some rest ↦ some (x ∷ rest) ]

-- A round of the loop: a worker of the pool if it has one, else the call waits.
unfoldable pub loop_round : Option String → String → System → Option System
loop_round none runner s =
    if is_empty s.orch.warm_pool then some (record s { waiting = runner ∷ s.waiting }) else none
loop_round (some id) runner s = elim (lookup id s.orch.warm_pool) [
  | none ↦ none
  | some ww ↦ some (record s {
    orch = take_worker id s.orch;
    in_hand = store id (record { worker = ww; runner = runner; checked = false }) s.in_hand;
  })
]

unfoldable pub check_hand : String → Option String → Option Hand → System → Option System
unfolding loop_round
check_hand id choice none s = none
check_hand id choice (some h) s =
    if contains s.running id
    then some (record s { in_hand = store id (record h { checked = true }) s.in_hand })
    else loop_round choice h.runner
        (record s { orch = retry_worker s.orch; in_hand = discard id s.in_hand })

unfoldable pub register_hand : String → Option Hand → System → Option System
register_hand id none s = none
register_hand id (some h) s =
    if h.checked
    then some (record s {
      orch = register_worker h.worker h.runner s.orch;
      in_hand = discard id s.in_hand;
    })
    else none

unfoldable pub round : System → System
round s =
    if (maintain_pool s.orch).1
    then record s { orch = (maintain_pool s.orch).0; boots = suc s.boots }
    else record s { orch = (maintain_pool s.orch).0 }

unfoldable pub boot : String → String → Bool → System → System
boot id ip is_running s = record s {
  orch = finish_boot (some (record { container_id = id; ip_address = ip })) s.orch;
  boots = s.boots - 1;
  rechecks = id ∷ s.rechecks;
  running = if is_running then id ∷ s.running else s.running;
  used = id ∷ s.used;
}

-- `none` where the event is not possible.
unfoldable pub step : System → Event → Option System
unfolding loop_round check_hand register_hand round boot
step s (settings m w) = some (record s { orch = update_settings m w s.orch })
step s (ask runner choice) = loop_round choice runner (record s { orch = ask_worker s.orch })
step s (wake runner choice) = elim (remove_one runner s.waiting) [
  | none ↦ none
  | some rest ↦ loop_round choice runner (record s { waiting = rest })
]
step s (check id choice) = check_hand id choice (lookup id s.in_hand) s
step s (register id) = register_hand id (lookup id s.in_hand) s
step s (give_up runner) = elim (remove_one runner s.waiting) [
  | none ↦ none
  | some rest ↦ some (record s { orch = give_up_worker s.orch; waiting = rest })
]
step s (abort id) = some (record s { orch = (abort_worker id s.orch).0 })
step s pool_round = if not s.orch.listening then some (round s) else none
step s (boot_ok id ip is_running) =
    if ltb 0 s.boots && not (contains s.used id) then some (boot id ip is_running s) else none
step s boot_error =
    if ltb 0 s.boots
    then some (record s {
      orch = finish_boot none s.orch;
      boots = s.boots - 1;
      sleepers = suc s.sleepers;
    })
    else none
step s (recheck id) = elim (remove_one id s.rechecks) [
  | none ↦ none
  | some rest ↦ some (record s {
    orch =
        broadcast (if contains s.running id then s.orch else (handle_container_death id s.orch).0);
    rechecks = rest;
  })
]
step s late_broadcast =
    if ltb 0 s.sleepers
    then some (record s { orch = broadcast s.orch; sleepers = s.sleepers - 1 })
    else none
step s (die id) =
    if contains s.running id
    then some (record s { running = filter (λ x. not (x == id)) s.running; deaths = id ∷ s.deaths })
    else none
step s (deliver id) = elim (remove_one id s.deaths) [
  | none ↦ none
  | some rest ↦ some (record s { orch = (handle_container_death id s.orch).0; deaths = rest })
]
step s evaluate = some (record s { orch = (evaluate_capacity s.orch).0 })

-- A list of events, each possible where it stands.
unfoldable pub run : System → List Event → Option System
run s [] = some s
run s (e ∷ es) = elim (step s e) [ none ↦ none | some s' ↦ run s' es ]

-- What holds at the start and after each step holds after each run.
pub run_rule {ℓ} :
    (P : System → Type ℓ)
    → ((s : System) (e : Event) (t : System) → P s → step s e ≡ some t → P t)
    → (s : System) (es : List Event) (t : System) → P s
    → run s es ≡ some t
    → P t
unfolding run
run_rule P h s [] t p e = rw (← some-injective _ _ e) p
run_rule P h s (e ∷ es) t p r = elim (Option-cases (step s e)) [
  | inl n ↦ absurd (none-ne-some t (rw (n, run) at r))
  | inr (s', k) ↦ run_rule P h s' es t (h s e s' p k) (rw (k, run) at r)
]
