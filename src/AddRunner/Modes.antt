-- ===== src/AddRunner/Modes.antt =====
-- Which modes a scope has, which scopes a batch ignores, and the mode that is submitted
-- (web/src/pages/AddRunner.tsx).
pub mod Laws
use github_action_runners_mu.Prelude.{
  ℕ, String, Bool, true, false, ◌&&◌, ◌||◌, not, List, [], ◌∷◌, Option, none, some, length, any,
  filter, contains, leb, ltb, if◌then◌else◌, ◌==◌,
}
use github_action_runners_mu.Api.Types.{AdminRepo, RunnerStatus}
use github_action_runners_mu.Browser.Sets.{add}
use github_action_runners_mu.AddRunner.Form.{Mode, mode_text, other_mode}

-- `Map<string, Set<string>>`, from a runner's URL to its modes
abbrev pub ModeMap : Type 0
ModeMap = List (String × List String)

-- `map.get(url) ?? new Set()`: a URL that the map lacks has no modes.
unfoldable pub modes_of : String → ModeMap → List String
modes_of url [] = []
modes_of url ((u, modes) ∷ map) = if u == url then modes else modes_of url map

-- One round of the loop: a new set where the map has none, and the mode added to it.
unfoldable pub add_mode : String → String → ModeMap → ModeMap
add_mode url mode [] = (url, add mode []) ∷ []
add_mode url mode ((u, modes) ∷ map) =
    if u == url then (u, add mode modes) ∷ map else (u, modes) ∷ add_mode url mode map

unfoldable pub add_runners : ModeMap → List RunnerStatus → ModeMap
add_runners map [] = map
add_runners map (r ∷ rs) = add_runners (add_mode r.url r.mode map) rs

-- `scopeModeMap`
unfoldable pub scope_mode_map : Option (List RunnerStatus) → ModeMap
scope_mode_map none = []
scope_mode_map (some existing_runners) = add_runners [] existing_runners

abbrev pub is_batch : List AdminRepo → Bool
is_batch selected_repos = ltb 1 (length selected_repos)

-- `singleRepo`
abbrev pub single_repo : List AdminRepo → Option AdminRepo
single_repo [] = none
single_repo (r ∷ []) = some r
single_repo (_ ∷ _ ∷ _) = none

-- Objects are compared by identity in the source. Two selected repos with equal fields have the
-- same URL, so that both or none of them are ignored, and a comparison of the fields serves.
abbrev pub same_repo : AdminRepo → AdminRepo → Bool
same_repo a b =
    a.host == b.host && a.owner == b.owner && a.repo == b.repo && a.url == b.url && a.type == b.type

-- `modes?.has(mode) ?? false` for a selected scope
unfoldable pub conflicts : Option (List RunnerStatus) → Mode → AdminRepo → Bool
conflicts existing mode r = contains (modes_of r.url (scope_mode_map existing)) (mode_text mode)

module _ (existing : Option (List RunnerStatus)) (selected_repos : List AdminRepo)
    (mode : Mode) where
  -- `singleScopeModes`
  unfoldable pub single_scope_modes : List String
  single_scope_modes = elim (single_repo selected_repos) [
    | none ↦ []
    | some r ↦ modes_of r.url (scope_mode_map existing)
  ]

  -- `isSingleMaximized`
  unfoldable pub is_single_maximized : Bool
  unfolding single_scope_modes
  is_single_maximized =
      not (is_batch selected_repos)
      && (leb 2 (length single_scope_modes) && leb (length single_scope_modes) 2)

  -- `isSingleModeDisabled`
  unfoldable pub is_single_mode_disabled : Bool
  unfolding single_scope_modes
  is_single_mode_disabled =
      not (is_batch selected_repos)
      && contains single_scope_modes (mode_text mode)
      && ltb (length single_scope_modes) 2

  -- `effectiveMode`
  unfoldable pub effective_mode : Mode
  unfolding is_single_mode_disabled
  effective_mode = if is_single_mode_disabled then other_mode mode else mode

  -- `displayMode`, which is also `submitMode`
  unfoldable pub display_mode : Mode
  unfolding effective_mode
  display_mode = if is_batch selected_repos then mode else effective_mode

  -- `ignoredScopes`
  unfoldable pub ignored_scopes : List AdminRepo
  ignored_scopes =
      if is_batch selected_repos then filter (conflicts existing mode) selected_repos else []

  -- `submitRepos`
  unfoldable pub submit_repos : List AdminRepo
  unfolding ignored_scopes
  submit_repos =
      if is_batch selected_repos
      then filter (λ r. not (any (same_repo r) ignored_scopes)) selected_repos
      else selected_repos
