-- ===== src/Mux/Moves.antt =====
-- The operations on the processes (pkg/mux/base_manager.go, pkg/standalone/pauser.go) against the
-- table of valid transitions (pkg/mux/state.go), one by one.
use github_action_runners_mu.Mux.{
  valid_transitions, MuxError, put_state, new_process, may_start, has_stopped, idle_from, busy_from,
  Row, RunnerState, same_state, validate_transition, Process, transition, start_process,
  launch_failed, stop_process, registering, online, busy, paused, draining, offline, failed,
}
use github_action_runners_mu.Mux.Standalone.{is_online, is_paused, freeze, unfreeze, signalled}
use mathlib.Core.Option.{some-injective, none-ne-some}
use github_action_runners_mu.Prelude.{
  ◌≡◌, ◌||◌, ◌&&◌, not, sym, ◌∙◌, refl, some, Bool-cases, ◌==◌, inl, inr, none, arith,
  if◌then◌else◌, Option-cases, if_rule, Option, suc, zero, ℕ, ==_iff, List, [], ◌∷◌, contains, Bool,
  String, true, false,
}
use github_action_runners_mu.Prelude.Dict.{Dict, lookup, store, lookup-store}

-- The changes of state that no test against the table stands before.
abbrev pub is_unchecked : RunnerState → RunnerState → Bool
is_unchecked registering draining = true
is_unchecked paused busy = true
is_unchecked busy paused = true
is_unchecked from failed = true
is_unchecked from to = false

unfoldable pub is_move : RunnerState → RunnerState → Bool
is_move from to = same_state from to || validate_transition from to || is_unchecked from to

same_state_refl : (s : RunnerState) → same_state s s ≡ true
unfolding same_state
same_state_refl registering = refl
same_state_refl online = refl
same_state_refl busy = refl
same_state_refl paused = refl
same_state_refl draining = refl
same_state_refl offline = refl
same_state_refl failed = refl

pub is_move_refl : (s : RunnerState) → is_move s s ≡ true
unfolding is_move
is_move_refl s = rw (same_state_refl s) refl

-- Each process that is there before and after moves as allowed.
abbrev pub AllMove : Dict Process → Dict Process → Type 0
AllMove ps qs =
    (name : String) (p q : Process)
    → lookup name ps ≡ some p
    → lookup name qs ≡ some q
    → is_move p.state q.state ≡ true

pub keep-AllMove : (ps : Dict Process) → AllMove ps ps
keep-AllMove ps name p q h k = rw (some-injective p q (sym h ∙ k)) (is_move_refl q.state)

pub store-AllMove :
    (ps : Dict Process) (name : String) (q : Process)
    → ((p : Process) → lookup name ps ≡ some p → is_move p.state q.state ≡ true)
    → AllMove ps (store name q ps)
store-AllMove ps name q m j a b k l =
    let e : (if name == j then some q else lookup j ps) ≡ some b =
      sym (lookup-store j name q ps) ∙ l in
    elim (Bool-cases (name == j)) [
      | inl y ↦ rw (← some-injective q b (rw y at e)) (m a (rw ((==_iff name j).0 y) k))
      | inr n ↦ rw (some-injective a b (sym k ∙ (rw n at e))) (is_move_refl b.state)
    ]

-- A change of one process, if it is there.
pub change-AllMove :
    (ps : Dict Process) (name : String) (f : Process → Dict Process)
    → ((p : Process) → lookup name ps ≡ some p → AllMove ps (f p))
    → AllMove ps (elim (lookup name ps) [ none ↦ ps | some p ↦ f p ])
change-AllMove ps name f h = elim (Option-cases (lookup name ps)) [
  | inl n ↦ rw n (keep-AllMove ps)
  | inr (p, k) ↦ rw k (h p k)
]

pub found :
    (ps : Dict Process) (name : String) (p : Process) (to : RunnerState)
    → lookup name ps ≡ some p
    → is_move p.state to ≡ true
    → (r : Process) → lookup name ps ≡ some r
    → is_move r.state to ≡ true
found ps name p to k m r l = rw (some-injective r p (sym l ∙ k)) m

fail_move : (s : RunnerState) → is_move s failed ≡ true
unfolding is_move validate_transition same_state valid_transitions
fail_move s = ground arith

pub busy_move : (s : RunnerState) → is_move s (busy_from s) ≡ true
unfolding is_move validate_transition same_state valid_transitions
busy_move s = ground arith

pub idle_move :
    (b : Bool) (n : ℕ) (s : RunnerState)
    → is_move s (idle_from (if b then paused else online) n s) ≡ true
unfolding is_move validate_transition same_state valid_transitions
idle_move true zero s = ground arith
idle_move false zero s = ground arith
idle_move b (suc n) s = is_move_refl s

stop_move : (s : RunnerState) → has_stopped s ≡ false → is_move s draining ≡ true
unfolding is_move validate_transition same_state valid_transitions
stop_move s h = ground arith

start_move : (s : RunnerState) → may_start s ≡ true → is_move s registering ≡ true
unfolding is_move validate_transition same_state valid_transitions
start_move s h = ground arith

hook_move : (from to : RunnerState) → validate_transition from to ≡ true → is_move from to ≡ true
unfolding is_move
hook_move from to h = rw h (ground arith)

-- A change of the first entry and of the others.
cons-AllMove :
    (name : String) (p q : Process) (ps qs : Dict Process)
    → is_move p.state q.state ≡ true
    → AllMove ps qs
    → AllMove ((name, p) ∷ ps) ((name, q) ∷ qs)
unfolding lookup
cons-AllMove name p q ps qs m h j a b k l = elim (Bool-cases (name == j)) [
  | inl y ↦
      let e : p ≡ a = some-injective p a (rw (y, lookup) at k) in
      let d : q ≡ b = some-injective q b (rw (y, lookup) at l) in rw (← e, ← d) m
  | inr n ↦ h j a b (rw (n, lookup) at k) (rw (n, lookup) at l)
]

freeze_move_of : (s : RunnerState) → is_online s ≡ true → is_move s paused ≡ true
unfolding is_move validate_transition same_state valid_transitions
freeze_move_of s h = ground arith

freeze_move :
    (p : Process) (frozen : Bool)
    → (frozen ≡ true → is_online p.state ≡ true)
    → is_move p.state (if frozen then record p { state = paused } else p).state ≡ true
freeze_move p frozen h =
    if_rule (λ (q : Process). is_move p.state q.state ≡ true) frozen
      (λ y. freeze_move_of p.state (h y)) λ _. is_move_refl p.state

unfreeze_move_of : (s : RunnerState) → is_paused s ≡ true → is_move s online ≡ true
unfolding is_move validate_transition same_state valid_transitions
unfreeze_move_of s h = ground arith

unfreeze_move :
    (p : Process) (b : Bool)
    → is_move p.state (if is_paused p.state && b then record p { state = online } else p).state
      ≡ true
unfreeze_move p b =
    if_rule (λ (q : Process). is_move p.state q.state ≡ true) (is_paused p.state && b)
      (λ y. unfreeze_move_of p.state (ground arith)) λ _. is_move_refl p.state

pub freeze-AllMove :
    (stops : ℕ → Bool) (active : List String) (groups : Dict ℕ) (ps : Dict Process)
    → AllMove ps (freeze stops active groups ps)
unfolding freeze
freeze-AllMove stops active groups [] = keep-AllMove []
freeze-AllMove stops active groups ((name, p) ∷ ps) =
    let frozen : Bool =
      is_online p.state && not (contains active name) && signalled stops name groups in
    cons-AllMove name p (if frozen then record p { state = paused } else p) ps
      (freeze stops active groups ps) (freeze_move p frozen (λ y. ground (arith, y)))
      (freeze-AllMove stops active groups ps)

pub unfreeze-AllMove :
    (conts : ℕ → Bool) (groups : Dict ℕ) (ps : Dict Process) → AllMove ps (unfreeze conts groups ps)
unfolding unfreeze
unfreeze-AllMove conts groups [] = keep-AllMove []
unfreeze-AllMove conts groups ((name, p) ∷ ps) =
    cons-AllMove name p _ ps _ (unfreeze_move p (signalled conts name groups))
      (unfreeze-AllMove conts groups ps)

pub launch_failed-AllMove :
    (name message : String) (ps : Dict Process) → AllMove ps (launch_failed name message ps)
unfolding launch_failed
launch_failed-AllMove name message ps =
    change-AllMove ps name _
      λ p k. store-AllMove ps name _ (found ps name p failed k (fail_move p.state))

pub start_process-AllMove : (cfg : Row) (ps : Dict Process) → AllMove ps (start_process cfg ps).0
unfolding start_process
start_process-AllMove cfg ps = elim (Option-cases (lookup cfg.name ps)) [
  | inl n ↦
      rw (n, start_process)
        (store-AllMove ps cfg.name (new_process cfg) λ r l. absurd (none-ne-some r (sym n ∙ l)))
  | inr (p, k) ↦
      rw (k, start_process)
        (if_rule {A = Dict Process × Option MuxError} (λ x. AllMove ps x.0) (may_start p.state)
          (λ y.
            store-AllMove ps cfg.name (new_process cfg)
              (found ps cfg.name p registering k (start_move p.state y)))
          λ _. keep-AllMove ps)
]

pub transition-AllMove :
    (name : String) (to : RunnerState) (ps : Dict Process) → AllMove ps (transition name to ps).0
unfolding transition put_state
transition-AllMove name to ps = elim (Option-cases (lookup name ps)) [
  | inl n ↦ rw (n, transition) (keep-AllMove ps)
  | inr (p, k) ↦
      rw (k, transition)
        (if_rule {A = Dict Process × Option MuxError} (λ x. AllMove ps x.0)
          (validate_transition p.state to)
          (λ y. store-AllMove ps name _ (found ps name p to k (hook_move p.state to y)))
          λ _. keep-AllMove ps)
]

pub stop_process-AllMove : (name : String) (ps : Dict Process) → AllMove ps (stop_process name ps).1
unfolding stop_process put_state
stop_process-AllMove name ps = elim (Option-cases (lookup name ps)) [
  | inl n ↦ rw (n, stop_process) (keep-AllMove ps)
  | inr (p, k) ↦
      rw (k, stop_process)
        (if_rule {A = Bool × Dict Process × Option MuxError} (λ x. AllMove ps x.1)
          (has_stopped p.state) (λ _. keep-AllMove ps)
          λ y. store-AllMove ps name _ (found ps name p draining k (stop_move p.state y)))
]
