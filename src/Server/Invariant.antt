-- ===== src/Server/Invariant.antt =====
-- The table of runners (db/migrations) under the service of pkg/dashboard/service.go: its unique
-- names and identifiers.
use github_action_runners_mu.Prelude.{
  ℕ, suc, ◌≤◌, String, ◌≡◌, refl, inl, inr, ◌&&◌, none, some, List, [], ◌∷◌, arith, ltb,
  if◌then◌else◌, ◌==◌, Option-cases, of_guard, of_then,
}
use github_action_runners_mu.Server.{
  increment_jobs, Tables, CreateRunnerParams, UpdateRunnerParams, find_runner, is_mode, is_none,
  insert_runner, patch, same_id, patch_runners, find_id, update_row, delete_runners,
}
use github_action_runners_mu.Mux.{Row}
use github_action_runners_mu.Server.Service.{delete_runner}
use mathlib.Core.Option.{some-injective}

unfoldable pub named : String → List Row → ℕ
named name [] = 0
named name (r ∷ rs) = if r.name == name then suc (named name rs) else named name rs

unfoldable pub numbered : ℕ → List Row → ℕ
numbered id [] = 0
numbered id (r ∷ rs) = if same_id r.id id then suc (numbered id rs) else numbered id rs

-- Each name stands in one row at most, each identifier too, and only if it was given out.
abbrev pub IsTable : Tables → Type 0
IsTable db =
    ((name : String) → named name db.runners ≤ 1)
    × ((id : ℕ) → numbered id db.runners ≤ (if ltb id db.next_id then 1 else 0))

named-find_runner : (name : String) (rs : List Row) → find_runner name rs ≡ none → named name rs ≡ 0
unfolding named find_runner
named-find_runner name [] h = refl
named-find_runner name (r ∷ rs) h = ground (arith, named-find_runner name rs)

pub insert_runner-IsTable :
    (p : CreateRunnerParams) (db : Tables) (x : Row × Tables)
    → IsTable db
    → insert_runner p db ≡ some x
    → IsTable x.1
unfolding insert_runner named numbered
insert_runner-IsTable p db x (n, i) e =
    let (g, k) = of_guard (is_none (find_runner p.name db.runners) && is_mode p.mode) e in
    let new : find_runner p.name db.runners ≡ none = ground (arith, g) in
    rw (← k) (
      (λ name. ground (arith, n name, named-find_runner p.name db.runners new)),
      (λ id. ground (arith, i id)),
    )

patched_names :
    (u : UpdateRunnerParams) (name : String) (rs : List Row)
    → named name (patch_runners u rs) ≡ named name rs
unfolding patch_runners patch named
patched_names u name [] = refl
patched_names u name (r ∷ rs) = ground (arith, patched_names u name rs)

patched_ids :
    (u : UpdateRunnerParams) (id : ℕ) (rs : List Row)
    → numbered id (patch_runners u rs) ≡ numbered id rs
unfolding patch_runners patch numbered
patched_ids u id [] = refl
patched_ids u id (r ∷ rs) = ground (arith, patched_ids u id rs)

pub update_row-IsTable :
    (u : UpdateRunnerParams) (db : Tables) (x : Row × Tables)
    → IsTable db
    → update_row u db ≡ some x
    → IsTable x.1
unfolding update_row
update_row-IsTable u db x (n, i) e =
    let (r, k, l) = of_then (find_id u.id db.runners) e in
    rw (← some-injective _ _ l) (
      (λ name. rw (patched_names u name db.runners) (n name)),
      (λ id. rw (patched_ids u id db.runners) (i id)),
    )

deleted_names : (j name : String) (rs : List Row) → named name (delete_runners j rs) ≤ named name rs
unfolding delete_runners named
deleted_names j name [] = omega arith
deleted_names j name (r ∷ rs) = ground (arith, deleted_names j name rs)

deleted_ids :
    (j : String) (id : ℕ) (rs : List Row) → numbered id (delete_runners j rs) ≤ numbered id rs
unfolding delete_runners numbered
deleted_ids j id [] = omega arith
deleted_ids j id (r ∷ rs) = ground (arith, deleted_ids j id rs)

pub delete_runner-IsTable :
    (name : String) (db : Tables) → IsTable db → IsTable (delete_runner name db).1
unfolding delete_runner
delete_runner-IsTable name db (n, i) = elim (Option-cases (find_runner name db.runners)) [
  | inl e ↦ rw (e, delete_runner) (n, i)
  | inr (r, e) ↦
      rw (e, delete_runner)
        (
          (λ j. omega (arith, n j, deleted_names name j db.runners)),
          (λ id. omega (arith, i id, deleted_ids name id db.runners)),
        )
]

counted_names : (j name : String) (rs : List Row) → named name (increment_jobs j rs) ≡ named name rs
unfolding increment_jobs named
counted_names j name [] = refl
counted_names j name (r ∷ rs) = ground (arith, counted_names j name rs)

counted_ids :
    (j : String) (id : ℕ) (rs : List Row) → numbered id (increment_jobs j rs) ≡ numbered id rs
unfolding increment_jobs numbered
counted_ids j id [] = refl
counted_ids j id (r ∷ rs) = ground (arith, counted_ids j id rs)

increment_jobs-IsTable :
    (name : String) (db : Tables)
    → IsTable db
    → IsTable (record db { runners = increment_jobs name db.runners })
increment_jobs-IsTable name db (n, i) = (
  (λ j. rw (counted_names name j db.runners) (n j)),
  (λ id. rw (counted_ids name id db.runners) (i id)),
)
