-- ===== src/Overview/Tests.antt =====
-- Runs of the overview of web/src/pages/Overview.tsx on concrete inputs.
use github_action_runners_mu.Prelude.{
  Char, code, String, ◌≡◌, refl, ◌⊎◌, inl, inr, Bool, true, false, Option, none, some, List, ◌∷◌,
  arith, leb, if◌then◌else◌, text_dec, ◌==◌, filter, [], ◌↔◌,
}
use github_action_runners_mu.Prelude.Int.{pos}
use github_action_runners_mu.Prelude.Text.{
  lower_char, to_lower_case, split, trim, starts_with, includes, show,
}
use github_action_runners_mu.Browser.Sets.{Nodup}
use github_action_runners_mu.Browser.Url.{Url}
use github_action_runners_mu.Api.Types.{RunnerStatus}
use github_action_runners_mu.Overview.{
  push, can_edit, is_repo_level, get_group_key, group_from, filtered_runners, insert_group,
  sort_groups, grouped_runners, no_groups, host, org, repo,
}
use github_action_runners_mu.Overview.Filtering.{is_listed, IsListed, filtered_runners-IsListed}
use github_action_runners_mu.Overview.Grouping.{group_at, group_keys, total}
use github_action_runners_mu.Overview.Sorting.{grouped_runners_lem}
use github_action_runners_mu.Overview.Shown.{
  state_variant, state_text, runner_card, runner_grid, capacity_percent, figures, secondary,
  mode_badge,
}
use mathlib.Core.Bool.{false≢true}

run : Unit {0}
unfolding push is_repo_level get_group_key group_from filtered_runners insert_group sort_groups
    grouped_runners runner_grid runner_card state_variant state_text mode_badge capacity_percent
    figures can_edit to_lower_case lower_char includes starts_with trim split text_dec show
run = tt

abbrev no_lower : Char → String
no_lower c = "?"

-- `new URL` for the addresses of github.com; anything else is no address here.
path_of : String → Option Url
unfolding text_dec
path_of url =
    if url == "https://github.com/acme/app"
    then some (record { host = "github.com"; pathname = "/acme/app" })
    else if url == "https://github.com/acme"
    then some (record { host = "github.com"; pathname = "/acme" })
    else none

-- The order of the texts by their first character.
abbrev first_le : String → String → Bool
first_le String.[] t = true
first_le (String.◌∷◌ c s) String.[] = false
first_le (String.◌∷◌ c s) (String.◌∷◌ d t) = leb (code c) (code d)

first_le_total : (s t : String) → (first_le s t ≡ true) ⊎ (first_le t s ≡ true)
first_le_total String.[] t = inl refl
first_le_total (String.◌∷◌ c s) String.[] = inr refl
first_le_total (String.◌∷◌ c s) (String.◌∷◌ d t) = ground arith

first_le_trans : (s t u : String) → first_le s t ≡ true → first_le t u ≡ true → first_le s u ≡ true
first_le_trans String.[] t u h k = refl
first_le_trans (String.◌∷◌ c s) String.[] u h k = absurd (false≢true h)
first_le_trans (String.◌∷◌ c s) (String.◌∷◌ d t) String.[] h k = absurd (false≢true k)
first_le_trans (String.◌∷◌ c s) (String.◌∷◌ d t) (String.◌∷◌ e u) h k = ground arith

abbrev runner : String → String → String → RunnerStatus
runner name mode url = record {
  id = 1;
  name = name;
  mode = mode;
  url = url;
  dir = "/runners/1";
  has_pat = true;
  max_runners = pos 2;
  labels = "gpu";
  runner_group = "";
  jobs_completed = 3;
  created_at = "2026";
  state = "Busy";
  active_workers = 2;
  error = none;
}

abbrev app_runner : RunnerStatus
app_runner = runner "app" "scaleset" "https://github.com/acme/app"

abbrev acme_runner : RunnerStatus
acme_runner = runner "acme" "standalone" "https://github.com/acme"

abbrev runners : List RunnerStatus
runners = app_runner ∷ acme_runner ∷ []

shown_test :
    (filtered_runners path_of no_lower (some runners) "ACME/A" no_groups ≡ app_runner ∷ [])
    × (filtered_runners path_of no_lower (some runners) " " repo ≡ app_runner ∷ [])
    × (grouped_runners path_of first_le org runners ≡ ("acme", runners) ∷ [])
    × ((runner_card true app_runner).state ≡ (secondary, "Busy (2)"))
    × (capacity_percent 1 (pos 3) ≡ pos 33)
unfolding run path_of
shown_test = (refl, refl, refl, refl, refl)

filtered_runners-IsListed_example :
    (filtered_runners path_of no_lower (some runners) "app" repo
      ≡ filter (is_listed path_of no_lower "app" repo) runners)
    × ((r : RunnerStatus)
        → (is_listed path_of no_lower "app" repo r ≡ true) ↔ IsListed path_of no_lower "app" repo r)
filtered_runners-IsListed_example = filtered_runners-IsListed path_of no_lower runners "app" repo

grouped_runners_lem_example :
    Nodup (group_keys (grouped_runners path_of first_le host runners))
    × (group_at "github.com" (grouped_runners path_of first_le host runners)
        ≡ filter (λ r. get_group_key path_of r.url host == "github.com") runners)
    × (total (grouped_runners path_of first_le host runners) ≡ 2)
grouped_runners_lem_example = grouped_runners_lem path_of first_le host runners "github.com"

figures_test :
    ((figures none (some runners)).total_runners ≡ some 2)
    × ((figures
          (some (record {
            max_workers = pos 0;
            warm_workers = pos 0;
            warm_pool_size = 0;
            active_workers = 2;
            booting_count = 0;
            is_paused = false;
          }))
          none).capacity_used
        ≡ some (pos 200))
unfolding run
figures_test = (refl, refl)
