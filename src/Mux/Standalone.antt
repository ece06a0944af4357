-- ===== src/Mux/Standalone.antt =====
-- The manager of the standalone runners where it freezes and unfreezes listeners
-- (pkg/standalone/pauser.go, and MarkIdle of manager.go). `syscall.Kill` on a process group is a
-- parameter: whether the group takes SIGSTOP or SIGCONT.
use github_action_runners_mu.Prelude.{
  ◌≡◌, refl, ap, ◌≢◌, [], ◌∷◌, is_zero, contains, none, some, not, if◌then◌else◌, ◌&&◌, Bool, ℕ,
  String, true, List, false, All, Option-cases, inl, inr, arith,
}
use github_action_runners_mu.Prelude.Dict.{lookup, Dict}
use github_action_runners_mu.Mux.{RunnerState, Process, mark_idle, online, paused}
use mathlib.Core.Bool.{false≢true}

-- Of `ListenerData` the process group, where 0 is none.
pub record Standalone : Type 0 where
  pub processes : Dict Process
  pub listener_data : Dict ℕ
  pub global_paused : Bool

abbrev pub is_online : RunnerState → Bool
is_online online = true
is_online _ = false

abbrev pub is_paused : RunnerState → Bool
is_paused paused = true
is_paused _ = false

-- A listener with a live process group that takes the signal
unfoldable pub signalled : (ℕ → Bool) → String → Dict ℕ → Bool
unfolding lookup
signalled takes name groups = elim (lookup name groups) [
  | none ↦ false
  | some pgid ↦ not (is_zero pgid) && takes pgid
]

-- The loops over the processes.
unfoldable pub freeze : (ℕ → Bool) → List String → Dict ℕ → Dict Process → Dict Process
freeze stops active groups [] = []
freeze stops active groups ((name, p) ∷ ps) =
    (
      name,
      if is_online p.state && not (contains active name) && signalled stops name groups
          then record p { state = paused }
          else p,
    )
    ∷ freeze stops active groups ps

unfoldable pub unfreeze : (ℕ → Bool) → Dict ℕ → Dict Process → Dict Process
unfreeze conts groups [] = []
unfreeze conts groups ((name, p) ∷ ps) =
    (
      name,
      if is_paused p.state && signalled conts name groups then record p { state = online } else p,
    )
    ∷ unfreeze conts groups ps

unfoldable pub lock_others : (ℕ → Bool) → List String → Standalone → Standalone
unfolding freeze
lock_others stops active m = record m {
  processes = freeze stops active m.listener_data m.processes;
  global_paused = true;
}

unfoldable pub unlock_others : (ℕ → Bool) → Standalone → Standalone
unfolding unfreeze
unlock_others conts m = record m {
  processes = unfreeze conts m.listener_data m.processes;
  global_paused = false;
}

-- MarkIdle of the standalone manager
unfoldable pub standalone_mark_idle : String → Standalone → Standalone
unfolding mark_idle
standalone_mark_idle name m = record m {
  processes = mark_idle name (if m.global_paused then paused else online) m.processes;
}

-- No process of a list is paused.
abbrev pub NonePaused : Dict Process → Type 0
NonePaused ps = All (λ (e : String × Process). e.1.state ≢ paused) ps

signalled_again :
    (stops conts : ℕ → Bool) (name : String) (groups : Dict ℕ)
    → ((pgid : ℕ) → stops pgid ≡ true → conts pgid ≡ true)
    → signalled stops name groups ≡ true
    → signalled conts name groups ≡ true
unfolding signalled
signalled_again stops conts name groups h e = elim (Option-cases (lookup name groups)) [
  | inl n ↦ absurd (false≢true (rw (n, signalled) at e))
  | inr (g, k) ↦ rw (k, signalled) (ground (arith, rw (k, signalled) at e, h g))
]

-- One process, frozen under a test and thawed again.
thaw_one :
    (p : Process) (frozen conts : Bool)
    → p.state ≢ paused
    → (frozen ≡ true → p.state ≡ online)
    → (frozen ≡ true → conts ≡ true)
    → (if is_paused (if frozen then record p { state = paused } else p).state && conts
        then record (if frozen then record p { state = paused } else p) { state = online }
        else (if frozen then record p { state = paused } else p))
      ≡ p
thaw_one p true conts n o c = rw (c refl, o refl) refl
thaw_one p false conts n o c = let e : is_paused p.state ≡ false = ground (arith, n) in rw e refl

unfreeze-freeze :
    (stops conts : ℕ → Bool) (active : List String) (groups : Dict ℕ) (ps : Dict Process)
    → ((pgid : ℕ) → stops pgid ≡ true → conts pgid ≡ true)
    → NonePaused ps
    → unfreeze conts groups (freeze stops active groups ps) ≡ ps
unfolding freeze unfreeze signalled
unfreeze-freeze stops conts active groups [] h n = refl
unfreeze-freeze stops conts active groups ((name, p) ∷ ps) h (n, ns) =
    let frozen : Bool =
      is_online p.state && not (contains active name) && signalled stops name groups in
    let one =
      thaw_one p frozen (signalled conts name groups) n (λ y. ground (arith, y))
        (λ y. signalled_again stops conts name groups h (ground (arith, y))) in
    rw (one, unfreeze-freeze stops conts active groups ps h ns) refl

-- What freezing stopped, unfreezing lets go on: if no runner is frozen before, and each process
-- group that takes SIGSTOP takes SIGCONT, then the two together change no process.
pub unlock_others-lock_others :
    (stops conts : ℕ → Bool) (active : List String) (m : Standalone)
    → ((pgid : ℕ) → stops pgid ≡ true → conts pgid ≡ true)
    → NonePaused m.processes
    → unlock_others conts (lock_others stops active m) ≡ record m { global_paused = false }
unfolding lock_others unlock_others
unlock_others-lock_others stops conts active m h n =
    ap (λ ps. record m { processes = ps; global_paused = false })
      (unfreeze-freeze stops conts active m.listener_data m.processes h n)
