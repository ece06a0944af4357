-- ===== src/Server.antt =====
-- pkg/dashboard: the backend behind the pages. Here are the tables that it keeps (db/migrations,
-- db/queries), and the queries on them. A query fails here only where a constraint of the tables
-- refuses it; a database that cannot be reached is not modelled.
pub mod Service
pub mod Invariant
pub mod Updates
pub mod Cleared
pub mod Handlers
pub mod Access
pub mod Limits
mod Unary
mod Tests
use github_action_runners_mu.Prelude.{
  ℕ, suc, String, Bool, true, false, not, ◌&&◌, ◌||◌, Option, none, some, List, [], ◌∷◌, leb,
  if◌then◌else◌, ◌==◌, filter,
}
use github_action_runners_mu.Prelude.Int.{ℤ}
use github_action_runners_mu.Prelude.Dict.{Dict}
use github_action_runners_mu.Mux.{Row}

-- The tables: `next_id` is what AUTOINCREMENT gives out next.
pub record Tables : Type 0 where
  pub runners : List Row
  pub next_id : ℕ
  pub settings : Dict String

-- sqlc.CreateRunnerParams
pub record CreateRunnerParams : Type 0 where
  pub name : String
  pub mode : String
  pub url : String
  pub dir : String
  pub pat : String
  pub max_runners : ℤ
  pub labels : String
  pub runner_group : String

-- sqlc.UpdateRunnerParams, where `none` is a null
pub record UpdateRunnerParams : Type 0 where
  pub id : ℕ
  pub pat : Option String
  pub max_runners : Option ℤ
  pub labels : Option String
  pub runner_group : Option String

-- GetRunnerByName
unfoldable pub find_runner : String → List Row → Option Row
find_runner name [] = none
find_runner name (r ∷ rs) = if r.name == name then some r else find_runner name rs

-- CHECK (mode IN ('standalone', 'scaleset'))
abbrev pub is_mode : String → Bool
is_mode mode = mode == "standalone" || mode == "scaleset"

abbrev pub is_none {ℓ} : {A : Type ℓ} → Option A → Bool
is_none none = true
is_none (some a) = false

abbrev pub new_row : CreateRunnerParams → ℕ → Row
new_row p id = record {
  id = id;
  name = p.name;
  mode = p.mode;
  url = p.url;
  dir = p.dir;
  pat = p.pat;
  max_runners = p.max_runners;
  labels = p.labels;
  runner_group = p.runner_group;
  jobs_completed = 0;
}

-- CreateRunner, where `none` is a constraint that fails: the name is taken or the mode unknown
unfoldable pub insert_runner : CreateRunnerParams → Tables → Option (Row × Tables)
unfolding find_runner
insert_runner p db =
    if is_none (find_runner p.name db.runners) && is_mode p.mode
    then some (
      new_row p db.next_id,
      record db { runners = new_row p db.next_id ∷ db.runners; next_id = suc db.next_id },
    )
    else none

-- COALESCE(?, x)
abbrev pub coalesce {ℓ} : {A : Type ℓ} → Option A → A → A
coalesce none a = a
coalesce (some b) a = b

unfoldable pub patch : UpdateRunnerParams → Row → Row
patch u r = record r {
  pat = coalesce u.pat r.pat;
  max_runners = coalesce u.max_runners r.max_runners;
  labels = coalesce u.labels r.labels;
  runner_group = coalesce u.runner_group r.runner_group;
}

abbrev pub same_id : ℕ → ℕ → Bool
same_id a b = leb a b && leb b a

-- UpdateRunner: the changed row, and the tables; without a row of the identifier it returns none.
unfoldable pub patch_runners : UpdateRunnerParams → List Row → List Row
unfolding patch
patch_runners u [] = []
patch_runners u (r ∷ rs) = (if same_id r.id u.id then patch u r else r) ∷ patch_runners u rs

unfoldable pub find_id : ℕ → List Row → Option Row
find_id id [] = none
find_id id (r ∷ rs) = if same_id r.id id then some r else find_id id rs

unfoldable pub update_row : UpdateRunnerParams → Tables → Option (Row × Tables)
unfolding patch_runners find_id
update_row u db = elim (find_id u.id db.runners) [
  | none ↦ none
  | some r ↦ some (patch u r, record db { runners = patch_runners u db.runners })
]

-- DeleteRunnerByName
unfoldable pub delete_runners : String → List Row → List Row
delete_runners name rs = filter (λ (r : Row). not (r.name == name)) rs

-- IncrementJobsCompleted
unfoldable pub increment_jobs : String → List Row → List Row
increment_jobs name [] = []
increment_jobs name (r ∷ rs) =
    (if r.name == name then record r { jobs_completed = suc r.jobs_completed } else r)
    ∷ increment_jobs name rs
