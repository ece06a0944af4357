-- ===== src/Selector/Panels.antt =====
-- What the operations of web/src/components/repo-selector-dialog.tsx do to the two panels.
use github_action_runners_mu.Prelude.{
  Char, String, true, false, ◌&&◌, ◌||◌, not, List, [], ◌∷◌, ◌++◌, map, some, filter, contains,
  contains-append, if◌then◌else◌, ◌==◌, ◌≡◌, refl, ap, ◌∙◌, arith, Bool-cases, inl, inr,
  Option-cases, text_dec,
}
use github_action_runners_mu.Prelude.Text.{to_lower_case}
use github_action_runners_mu.Api.Types.{AdminRepo}
use github_action_runners_mu.Browser.Sets.{contains-add, contains-delete, contains-set_of}
use github_action_runners_mu.Selector.{
  Panel, repo_key, right_keys, is_left, left_items, move_right, move_left, toggle, matches,
  to_remove,
}
use mathlib.Core.Bool.{false≢true}

abbrev pub keys : List AdminRepo → List String
keys = map repo_key

-- A click adds an item to the selection or takes it out, and leaves the others as they are.
pub contains-toggle :
    (key j : String) (s : List String)
    → contains (toggle key s) j ≡ (if j == key then not (contains s j) else contains s j)
unfolding toggle
contains-toggle key j s = ground (arith, contains-delete key j s, contains-add key j s)

contains-keys-filter :
    (s : List String) (xs : List AdminRepo) (k : String)
    → contains (keys (filter (λ r. contains s (repo_key r)) xs)) k
      ≡ (contains (keys xs) k && contains s k)
contains-keys-filter s [] k = refl
contains-keys-filter s (x ∷ xs) k = ground (arith, contains-keys-filter s xs k)

contains-keys-filter-not :
    (s : List String) (xs : List AdminRepo) (k : String)
    → contains (keys (filter (λ r. not (contains s (repo_key r))) xs)) k
      ≡ (contains (keys xs) k && not (contains s k))
contains-keys-filter-not s [] k = refl
contains-keys-filter-not s (x ∷ xs) k = ground (arith, contains-keys-filter-not s xs k)

pub map-append_keys : (xs ys : List AdminRepo) → keys (xs ++ ys) ≡ keys xs ++ keys ys
map-append_keys [] ys = refl
map-append_keys (x ∷ xs) ys = ap (λ ks. repo_key x ∷ ks) (map-append_keys xs ys)

-- The right arrow moves exactly the items that are selected and visible on the left.
pub move_right-keys :
    (lower : Char → String) (p : Panel) (k : String)
    → contains (keys (move_right lower p).right_panel) k ≡ (
        contains (keys p.right_panel) k
        || (contains (keys (left_items lower p)) k && contains p.left_selected k))
unfolding move_right
move_right-keys lower p k = rw (
  map-append_keys,
  contains-append (keys p.right_panel) _ k,
  contains-keys-filter p.left_selected (left_items lower p) k,
)

-- The left arrow takes out exactly the items that are selected on the right.
move_left-keys :
    (p : Panel) (k : String)
    → contains (keys (move_left p).right_panel) k
      ≡ (contains (keys p.right_panel) k && not (contains p.right_selected k))
unfolding move_left
move_left-keys p k =
    contains-keys-filter-not (to_remove p) p.right_panel k
    ∙ rw
        (
          contains-set_of []
              (keys (filter (λ r. contains p.right_selected (repo_key r)) p.right_panel)) k,
          contains-keys-filter p.right_selected p.right_panel k,
        )
        (ground arith)

contains-right_keys :
    (right_panel : List AdminRepo) (k : String)
    → contains (right_keys right_panel) k ≡ contains (keys right_panel) k
contains-right_keys right_panel k = contains-set_of [] (keys right_panel) k

left_of_right :
    (lower : Char → String) (p : Panel) (xs : List AdminRepo) (k : String)
    → contains (keys (filter (is_left lower p) xs)) k ≡ true
    → (contains (keys xs) k && not (contains (keys p.right_panel) k)) ≡ true
left_of_right lower p [] k h = h
left_of_right lower p (x ∷ xs) k h = elim (Bool-cases (is_left lower p x)) [
  | inl e ↦
      ground (arith, left_of_right lower p xs k, contains-right_keys p.right_panel (repo_key x))
  | inr e ↦ ground (arith, left_of_right lower p xs k)
]

matches_no_query :
    (lower : Char → String) (p : Panel) (x : AdminRepo)
    → p.debounced_query ≡ ""
    → matches lower (to_lower_case lower p.debounced_query) x ≡ true
unfolding matches to_lower_case text_dec
matches_no_query lower p x q = rw q

left_of_no_query :
    (lower : Char → String) (p : Panel) (xs : List AdminRepo) (k : String)
    → p.debounced_query ≡ ""
    → contains (keys (filter (is_left lower p) xs)) k
      ≡ (contains (keys xs) k && not (contains (keys p.right_panel) k))
left_of_no_query lower p [] k q = refl
left_of_no_query lower p (x ∷ xs) k q = ground (
  arith,
  matches_no_query lower p x q,
  left_of_no_query lower p xs k q,
  contains-right_keys p.right_panel (repo_key x),
)

-- No item is offered on the left that is on the right, whatever is searched for.
pub left_items_disjoint :
    (lower : Char → String) (p : Panel) (k : String)
    → contains (keys (left_items lower p)) k ≡ true
    → contains (keys p.right_panel) k ≡ false
unfolding left_items
left_items_disjoint lower p k h = elim (Option-cases p.repos) [
  | inl e ↦ absurd (false≢true (rw (e, left_items) at h))
  | inr (xs, e) ↦ ground (arith, left_of_right lower p xs k (rw (e, left_items) at h))
]

-- With nothing searched for, every repository of the backend is on exactly one side.
left_items_complete :
    (lower : Char → String) (p : Panel) (repos : List AdminRepo) (k : String)
    → p.repos ≡ some repos
    → p.debounced_query ≡ ""
    → contains (keys (left_items lower p)) k
      ≡ (contains (keys repos) k && not (contains (keys p.right_panel) k))
unfolding left_items
left_items_complete lower p repos k r q = rw r (left_of_no_query lower p repos k q)
