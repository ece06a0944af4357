-- ===== src/Overview.antt =====
-- web/src/pages/Overview.tsx: the list of runners, searched, grouped and sorted, and what the page
-- shows. `parse_url` is `new URL(…)`, `lower` the part of Unicode's lower-case table beyond ASCII,
-- and `locale_le a b` says that `a.localeCompare(b)` is at most 0.
pub mod Filtering
pub mod Grouping
pub mod Sorting
pub mod Shown
mod Tests
use github_action_runners_mu.Prelude.{
  ℕ, suc, ◌+◌, Char, String, ◌<>◌, Bool, true, false, ◌&&◌, ◌||◌, not, List, [], ◌∷◌, ◌++◌, Option,
  none, some, filter, any, all, is_empty, truthy, or_text, if◌then◌else◌, ◌==◌,
}
use github_action_runners_mu.Prelude.Text.{to_lower_case, includes, trim}
use github_action_runners_mu.Api.Types.{RunnerStatus, AuthStatus}
use github_action_runners_mu.Browser.Url.{Url, path_parts}

pub data GroupBy : Type 0 where
  no_groups host org repo : GroupBy

-- `pathParts.length >= 2`
abbrev pub two_parts : List String → Bool
two_parts [] = false
two_parts (_ ∷ []) = false
two_parts (_ ∷ _ ∷ _) = true

-- `pathParts[0] || "Unknown"`
abbrev first_part : List String → String
first_part [] = "Unknown"
first_part (p ∷ _) = or_text p "Unknown"

abbrev pub is_repo_group : GroupBy → Bool
is_repo_group repo = true
is_repo_group _ = false

-- The groups in the order in which the keys were met: a Map<string, RunnerStatus[]>.
abbrev pub Groups : Type 0
Groups = List (String × List RunnerStatus)

-- One round of the loop: a new group where there is none, and the runner at its end.
unfoldable pub push : String → RunnerStatus → Groups → Groups
push key r [] = (key, r ∷ []) ∷ []
push key r ((k, rs) ∷ groups) =
    if k == key then (k, rs ++ (r ∷ [])) ∷ groups else (k, rs) ∷ push key r groups

-- `canEdit`
unfoldable pub can_edit : Option (List AuthStatus) → Bool
can_edit none = true
can_edit (some statuses) = is_empty statuses || any (λ s. s.logged_in) statuses

module _ (parse_url : String → Option Url) where
  unfoldable pub is_repo_level : String → Bool
  is_repo_level url = elim (parse_url url) [ none ↦ false | some u ↦ two_parts (path_parts u) ]

  abbrev key_in : GroupBy → String → Url → String
  key_in no_groups url u = "All Runners"
  key_in host url u = u.host
  key_in org url u = first_part (path_parts u)
  key_in repo url u = url

  abbrev key_or_unknown : GroupBy → String → Option Url → String
  key_or_unknown no_groups url u = "All Runners"
  key_or_unknown group_by url none = "Unknown"
  key_or_unknown group_by url (some u) = key_in group_by url u

  unfoldable pub get_group_key : String → GroupBy → String
  get_group_key url group_by = key_or_unknown group_by url (parse_url url)

  -- The loop over the filtered runners.
  unfoldable pub group_from : GroupBy → Groups → List RunnerStatus → Groups
  group_from group_by groups [] = groups
  group_from group_by groups (r ∷ rs) =
      group_from group_by (push (get_group_key r.url group_by) r groups) rs

  abbrev pub after_repo : GroupBy → List RunnerStatus → List RunnerStatus
  after_repo group_by runners =
      if is_repo_group group_by then filter (λ r. is_repo_level r.url) runners else runners

  module _ (lower : Char → String) where
    -- `filteredRunners`
    unfoldable pub filtered_runners :
        Option (List RunnerStatus) → String → GroupBy → List RunnerStatus
    filtered_runners none search_query group_by = []
    filtered_runners (some runners) search_query group_by =
        let result = after_repo group_by runners in
        let q = to_lower_case lower search_query in
        if not (truthy (trim search_query))
        then result
        else filter (λ r. includes (to_lower_case lower r.url) q) result

-- `sort((a, b) => a[0].localeCompare(b[0]))`, which is stable.
unfoldable pub insert_group :
    (String → String → Bool) → String × List RunnerStatus → Groups → Groups
insert_group locale_le g [] = g ∷ []
insert_group locale_le g (h ∷ groups) =
    if locale_le g.0 h.0 then g ∷ h ∷ groups else h ∷ insert_group locale_le g groups

unfoldable pub sort_groups : (String → String → Bool) → Groups → Groups
sort_groups locale_le [] = []
sort_groups locale_le (g ∷ groups) = insert_group locale_le g (sort_groups locale_le groups)

-- `groupedRunners`
unfoldable pub grouped_runners :
    (String → Option Url) → (String → String → Bool) → GroupBy → List RunnerStatus → Groups
grouped_runners parse_url locale_le group_by runners =
    sort_groups locale_le (group_from parse_url group_by [] runners)
