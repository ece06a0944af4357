-- ===== src/Overview/Shown.antt =====
-- What the overview shows: a runner's card, the grid with its messages, and the figures on top
-- (web/src/pages/Overview.tsx). Layout and icons are left out.
use github_action_runners_mu.Prelude.{
  ℕ, zero, suc, ◌+◌, ◌*◌, ◌/◌, Char, String, ◌<>◌, Bool, true, false, ◌&&◌, ◌||◌, not, List, [],
  ◌∷◌, map, Option, none, some, filter, all, length, is_empty, truthy, if◌then◌else◌, ◌==◌, ◌≡◌,
  refl, arith,
}
use github_action_runners_mu.Prelude.Int.{ℤ, pos, negsuc, neg}
use github_action_runners_mu.Prelude.Text.{show, trim}
use github_action_runners_mu.Api.Types.{RunnerStatus, GlobalStatus}
use github_action_runners_mu.Browser.Url.{Url}
use github_action_runners_mu.Overview.{
  GroupBy, no_groups, is_repo_group, is_repo_level, filtered_runners, grouped_runners,
}
use github_action_runners_mu.Overview.Filtering.{is_listed, filtered_runners_lem}

pub data Variant : Type 0 where
  default secondary destructive outline : Variant

-- The badge of a runner's state, which the page of one runner shows too.
unfoldable pub state_variant : String → Variant
state_variant state =
    if state == "Online"
    then default
    else if state == "Busy"
    then secondary
    else if state == "Offline" || state == "Failed"
    then destructive
    else outline

unfoldable pub state_text : String → String → ℕ → String
state_text state mode active_workers =
    if state == "Busy" && mode == "scaleset"
    then "Busy (" <> (show active_workers <> ")")
    else state

unfoldable pub mode_badge : String → String
mode_badge mode = if mode == "standalone" then "Standalone" else "Scale Set"

abbrev pub group_badge : String → Option String
group_badge group = if truthy group then some ("Group: " <> group) else none

-- `state === "Failed" && error && …`
abbrev pub error_text : String → Option String → Option String
error_text state none = none
error_text state (some error) = if state == "Failed" && truthy error then some error else none

pub record RunnerCard : Type 0 where
  pub title : String
  pub state : Variant × String
  pub url : String
  pub mode : String
  pub group : Option String
  pub jobs : String
  pub error : Option String
  pub details_link : Option String

-- `renderRunnerCard`
unfoldable pub runner_card : Bool → RunnerStatus → RunnerCard
unfolding state_variant state_text mode_badge
runner_card can_edit runner = record {
  title = runner.name;
  state = (state_variant runner.state, state_text runner.state runner.mode runner.active_workers);
  url = runner.url;
  mode = mode_badge runner.mode;
  group = group_badge runner.runner_group;
  jobs = show runner.jobs_completed <> " jobs completed";
  error = error_text runner.state runner.error;
  details_link = if can_edit then some ("/runner/" <> runner.name) else none;
}

pub data Grid : Type 0 where
  skeletons : Grid
  message : String → Grid
  flat : List RunnerCard → Grid
  grouped : List (String × ℕ × List RunnerCard) → Grid

module _ (parse_url : String → Option Url) (lower : Char → String)
    (locale_le : String → String → Bool) (can_edit : Bool) where
  abbrev show_group : String × List RunnerStatus → String × ℕ × List RunnerCard
  show_group (key, rs) = (key, length rs, map (runner_card can_edit) rs)

  abbrev cards : GroupBy → List RunnerStatus → Grid
  cards no_groups filtered = flat (map (runner_card can_edit) filtered)
  cards group_by filtered =
      grouped (map show_group (grouped_runners parse_url locale_le group_by filtered))

  -- `isRepoFilterEmpty`, which is asked only where there are runners
  abbrev pub is_repo_filter_empty : GroupBy → List RunnerStatus → Bool
  is_repo_filter_empty group_by runners =
      is_repo_group group_by
      && not (is_empty runners)
      && all (λ r. not (is_repo_level parse_url r.url)) runners

  -- `renderRunnerGrid`
  unfoldable pub runner_grid : Option (List RunnerStatus) → String → GroupBy → Grid
  runner_grid none search_query group_by = skeletons
  runner_grid (some runners) search_query group_by =
      let filtered = filtered_runners parse_url lower (some runners) search_query group_by in
      if is_empty runners
      then message "No runners configured. Click \"Add Runner\" to get started."
      else if is_empty filtered
      then message (
          if is_repo_filter_empty group_by runners
          then "No repo-level runners found. Org/user-level runners are hidden in this view."
          else "No runners match \"" <> (search_query <> "\"."))
      else cards group_by filtered

-- `Math.round((active_workers / (max_workers || 1)) * 100)` in whole numbers: halves are rounded
-- up. What floating point makes of a quotient that is no fraction of two is left out.
unfoldable pub capacity_percent : ℕ → ℤ → ℤ
capacity_percent active (pos zero) = pos (active * 100)
capacity_percent active (pos (suc m)) = pos ((active * 100 * 2 + suc m) / (suc m * 2))
capacity_percent active (negsuc m) = neg ((active * 100 * 2 + m) / (suc m * 2))

-- The four figures; `none` is a skeleton.
pub record Figures : Type 0 where
  pub total_runners : Option ℕ
  pub active_workers : Option ℕ
  pub warm_pool : Option ℕ
  pub capacity_used : Option ℤ

unfoldable pub figures : Option GlobalStatus → Option (List RunnerStatus) → Figures
figures status runners = record {
  total_runners = elim runners [ none ↦ none | some rs ↦ some (length rs) ];
  active_workers = elim status [ none ↦ none | some s ↦ some s.active_workers ];
  warm_pool = elim status [ none ↦ none | some s ↦ some s.warm_pool_size ];
  capacity_used = elim status [
    | none ↦ none
    | some s ↦ some (capacity_percent s.active_workers s.max_workers)
  ];
}

all_hidden :
    (parse_url : String → Option Url) (lower : Char → String) (search_query : String)
    (group_by : GroupBy) (runners : List RunnerStatus)
    → truthy (trim search_query) ≡ false
    → is_empty (filter (is_listed parse_url lower search_query group_by) runners) ≡ true
    → (is_empty runners
        || (is_repo_group group_by && all (λ r. not (is_repo_level parse_url r.url)) runners))
      ≡ true
all_hidden parse_url lower search_query group_by [] t h = refl
all_hidden parse_url lower search_query group_by (r ∷ rs) t h =
    ground (arith, all_hidden parse_url lower search_query group_by rs t)

-- With nothing but white space searched for, the page never says that no runner matches the query:
-- where runners exist and none is shown, the page groups by repository and no runner is of a
-- repository, and the page says so.
empty_grid_reason :
    (parse_url : String → Option Url) (lower : Char → String) (locale_le : String → String → Bool)
    (can_edit : Bool) (runners : List RunnerStatus) (search_query : String) (group_by : GroupBy)
    → truthy (trim search_query) ≡ false
    → is_empty runners ≡ false
    → is_empty (filtered_runners parse_url lower (some runners) search_query group_by) ≡ true
    → runner_grid parse_url lower locale_le can_edit (some runners) search_query group_by
      ≡ message "No repo-level runners found. Org/user-level runners are hidden in this view."
unfolding runner_grid
empty_grid_reason parse_url lower locale_le can_edit runners search_query group_by t n e =
    let e' = rw (filtered_runners_lem parse_url lower runners search_query group_by) at e in
    let hidden = all_hidden parse_url lower search_query group_by runners t e' in
    let why : is_repo_filter_empty parse_url lower locale_le can_edit group_by runners ≡ true =
      ground arith in
    rw (why, n, e)
