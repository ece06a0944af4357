-- ===== src/Pool/Capacity.antt =====
-- How many workers there are at most (orchestrator/pool.go, allocate.go), and what the evaluation of
-- the capacity leaves (orchestrator/events.go).
pub mod Parts
pub mod Bound
pub mod Freezing
use github_action_runners_mu.Prelude.{
  ℕ, ◌+◌, ◌≤◌, ◌≡◌, true, Option, none, some, List, [], ◌∷◌, length,
}
use github_action_runners_mu.Pool.{at_least}
use github_action_runners_mu.Pool.System.{System, Event, step, settings}

-- The workers that the orchestrator counts, and those that a call holds.
unfoldable pub weight : System → ℕ
weight s =
    length s.orch.warm_pool + length s.orch.active_workers + s.orch.booting_count + length s.in_hand

-- No setting allows more than `bound` workers, and there are `most` at most.
abbrev pub IsWithin : ℕ → ℕ → System → Type 0
IsWithin bound most s = (at_least bound s.orch.max_workers ≡ true) × (weight s ≤ most)

-- An event sets no greater limit.
abbrev pub Allows : ℕ → Event → Type 0
Allows bound (settings m w) = at_least bound m ≡ true
Allows bound e = Unit

-- In each state of a run, `k` calls hold a worker at most.
abbrev pub HoldAtMost : ℕ → System → List Event → Type 0
HoldAtMost k s [] = length s.in_hand ≤ k
HoldAtMost k s (e ∷ es) =
    (length s.in_hand ≤ k)
    × elim (step s e) as (λ _. Type 0) [ none ↦ Unit | some t ↦ HoldAtMost k t es ]
