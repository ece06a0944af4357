-- ===== src/Api/Types.antt =====
-- The interfaces of web/src/lib/api.ts. An optional field is an `Option`, where `none` is
-- undefined; a field that the program only shows or compares as text keeps the type `string`.
use github_action_runners_mu.Prelude.{ℕ, String, Bool, List, Option}
use github_action_runners_mu.Prelude.Int.{ℤ}

pub record RunnerStatus : Type 0 where
  pub id : ℕ
  pub name : String
  pub mode : String
  pub url : String
  pub dir : String
  pub has_pat : Bool
  pub max_runners : ℤ
  pub labels : String
  pub runner_group : String
  pub jobs_completed : ℕ
  pub created_at : String
  pub state : String
  pub active_workers : ℕ
  pub error : Option String

pub record GlobalStatus : Type 0 where
  pub max_workers : ℤ
  pub warm_workers : ℤ
  pub warm_pool_size : ℕ
  pub active_workers : ℕ
  pub booting_count : ℕ
  pub is_paused : Bool

pub record AddRunnerPayload : Type 0 where
  pub name : String
  pub mode : String
  pub url : String
  pub pat : Option String
  pub max_runners : Option ℤ
  pub labels : Option (List String)
  pub runner_group : Option String

pub record UpdateRunnerPayload : Type 0 where
  pub pat : Option String
  pub max_runners : Option ℤ
  pub labels : Option (List String)
  pub runner_group : Option String

pub record RunnerDetail : Type 0 where
  pub id : ℕ
  pub name : String
  pub mode : String
  pub url : String
  pub dir : String
  pub has_pat : Bool
  pub max_runners : ℤ
  pub labels : String
  pub runner_group : String
  pub jobs_completed : ℕ
  pub created_at : String
  pub state : String
  pub active_workers : ℕ
  pub error : Option String
  pub can_manage : Bool
  pub is_registered : Bool

-- The fields are read with `||`, so an answer may lack `error` too.
pub record RunnerErrorResponse : Type 0 where
  pub error : Option String
  pub runner_name : Option String

pub record Settings : Type 0 where
  pub max_workers : ℤ
  pub warm_workers : ℤ

pub record AuthHost : Type 0 where
  pub host : String
  pub client_id : String

pub record AuthStatus : Type 0 where
  pub host : String
  pub logged_in : Bool
  pub is_admin : Bool

-- `repo` is empty for an organization; `type` is "organization" or "repository".
pub record AdminRepo : Type 0 where
  pub host : String
  pub owner : String
  pub repo : String
  pub url : String
  pub type : String
