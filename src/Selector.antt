-- ===== src/Selector.antt =====
-- web/src/components/repo-selector-dialog.tsx: the two panels in which repositories and
-- organizations are chosen. `lower` is the part of Unicode's lower-case table beyond ASCII.
pub mod Panels
pub mod Invariant
pub mod Shown
mod Tests
use github_action_runners_mu.Prelude.{
  Char, String, ◌<>◌, Bool, true, false, ◌&&◌, ◌||◌, not, List, [], ◌∷◌, ◌++◌, map, Option, none,
  some, filter, contains, is_empty, truthy, if◌then◌else◌, ◌==◌,
}
use github_action_runners_mu.Prelude.Text.{to_lower_case, includes}
use github_action_runners_mu.Api.Types.{AdminRepo}
use github_action_runners_mu.Browser.Sets.{add, delete, set_of}

unfoldable pub repo_key : AdminRepo → String
repo_key r = r.host <> (":" <> (r.owner <> (":" <> r.repo)))

unfoldable pub repo_label : AdminRepo → String
repo_label r = if truthy r.repo then r.owner <> ("/" <> r.repo) else r.owner

-- The state of SelectorPanel, the list that the backend sent, and whether a timer of the search
-- field is running.
pub record Panel : Type 0 where
  pub search_query : String
  pub debounced_query : String
  pub timer_running : Bool
  pub left_selected : List String
  pub right_selected : List String
  pub right_panel : List AdminRepo
  pub repos : Option (List AdminRepo)

abbrev pub opened : List AdminRepo → Option (List AdminRepo) → Panel
opened selected repos = record {
  search_query = "";
  debounced_query = "";
  timer_running = true;
  left_selected = [];
  right_selected = [];
  right_panel = selected;
  repos = repos;
}

-- `rightKeys`
abbrev pub right_keys : List AdminRepo → List String
right_keys right_panel = set_of [] (map repo_key right_panel)

module _ (lower : Char → String) where
  -- The tests of `leftItems` on the query `q`, which is in lower case.
  unfoldable pub matches : String → AdminRepo → Bool
  unfolding repo_label
  matches q r =
      if not (truthy q)
      then true
      else includes (to_lower_case lower (repo_label r)) q
        || includes (to_lower_case lower r.owner) q
        || includes (to_lower_case lower r.repo) q
        || includes (to_lower_case lower r.host) q
        || includes (to_lower_case lower r.url) q

  abbrev pub is_left : Panel → AdminRepo → Bool
  is_left p r =
      if contains (right_keys p.right_panel) (repo_key r)
      then false
      else matches (to_lower_case lower p.debounced_query) r

  abbrev or_no_items : Panel → Option (List AdminRepo) → List AdminRepo
  or_no_items p none = []
  or_no_items p (some repos) = filter (is_left p) repos

  unfoldable pub left_items : Panel → List AdminRepo
  left_items p = or_no_items p p.repos

  unfoldable pub left_orgs : Panel → List AdminRepo
  left_orgs p = filter (λ r. r.type == "organization") (left_items p)

  unfoldable pub left_repos : Panel → List AdminRepo
  left_repos p = filter (λ r. r.type == "repository") (left_items p)

  unfoldable pub move_right : Panel → Panel
  move_right p =
      let to_move = filter (λ r. contains p.left_selected (repo_key r)) (left_items p) in
      record p { right_panel = p.right_panel ++ to_move; left_selected = [] }

-- `toRemove`
abbrev to_remove : Panel → List String
to_remove p =
    set_of [] (map repo_key (filter (λ r. contains p.right_selected (repo_key r)) p.right_panel))

unfoldable pub move_left : Panel → Panel
move_left p =
    let removed = to_remove p in
    record p {
      right_panel = filter (λ r. not (contains removed (repo_key r))) p.right_panel;
      right_selected = [];
    }

-- The click on an item: `next.has(key) ? next.delete(key) : next.add(key)`.
unfoldable pub toggle : String → List String → List String
toggle key prev = if contains prev key then delete key prev else add key prev

-- What happens to the panel: a key in the search field, the end of its timer, clicks on items and
-- arrows, and a new list from the backend.
pub data Event : Type 0 where
  search : String → Event
  timeout : Event
  click_left : AdminRepo → Event
  click_right : AdminRepo → Event
  arrow_right : Event
  arrow_left : Event
  load : List AdminRepo → Event

-- A timer is restarted by each key, and its end takes the query over.
unfoldable pub handle : (Char → String) → Panel → Event → Panel
unfolding toggle
handle lower p (Event.search q) = record p { search_query = q; timer_running = true }
handle lower p Event.timeout =
    if p.timer_running
    then record p { debounced_query = p.search_query; timer_running = false }
    else p
handle lower p (Event.click_left r) = record p {
  left_selected = toggle (repo_key r) p.left_selected;
}
handle lower p (Event.click_right r) = record p {
  right_selected = toggle (repo_key r) p.right_selected;
}
handle lower p Event.arrow_right = move_right lower p
handle lower p Event.arrow_left = move_left p
handle lower p (Event.load repos) = record p { repos = some repos }

-- `handleConfirm`: what the dialog hands over, if the button is enabled.
unfoldable pub confirm : Panel → Option (List AdminRepo)
confirm p = if is_empty p.right_panel then none else some p.right_panel
