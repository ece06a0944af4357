-- ===== src/Selector/Invariant.antt =====
-- The invariant of the panel of web/src/components/repo-selector-dialog.tsx, kept by every event.
use github_action_runners_mu.Prelude.{
  Char, String, Bool, true, false, List, [], ◌∷◌, ◌++◌, none, some, filter, contains,
  contains-append, if◌then◌else◌, ◌≡◌, ◌∙◌, arith, inl, inr, if_rule, Option-cases, is_empty,
}
use github_action_runners_mu.Api.Types.{AdminRepo}
use github_action_runners_mu.Browser.Sets.{Nodup}
use github_action_runners_mu.Selector.{
  Panel, opened, Event, repo_key, is_left, left_items, move_right, move_left, toggle, handle,
  confirm,
}
use github_action_runners_mu.Selector.Panels.{
  keys, map-append_keys, move_right-keys, left_items_disjoint, contains-toggle,
}
use mathlib.Core.Bool.{false≢true}
use mathlib.Core.Option.{none-ne-some, some-injective}

-- The lists have no key twice, and what is selected on the right stands on the right.
pub record IsPanel (p : Panel) : Type 0 where
  pub panel : Nodup (keys p.right_panel)
  pub repos : (rs : List AdminRepo) → p.repos ≡ some rs → Nodup (keys rs)
  pub selected :
      (k : String) → contains p.right_selected k ≡ true → contains (keys p.right_panel) k ≡ true

-- The backend lists no repository twice, and only items that stand on the right are clicked there.
abbrev pub IsPossible : Panel → Event → Type 0
IsPossible p (Event.load repos) = Nodup (keys repos)
IsPossible p (Event.click_right r) = contains (keys p.right_panel) (repo_key r) ≡ true
IsPossible p _ = Unit

contains-filter-false :
    (t : AdminRepo → Bool) (xs : List AdminRepo) (k : String)
    → contains (keys xs) k ≡ false
    → contains (keys (filter t xs)) k ≡ false
contains-filter-false t [] k h = h
contains-filter-false t (x ∷ xs) k h = ground (arith, contains-filter-false t xs k)

of_filter :
    (t : AdminRepo → Bool) (xs : List AdminRepo) (k : String)
    → contains (keys (filter t xs)) k ≡ true
    → contains (keys xs) k ≡ true
of_filter t xs k h = ground (arith, contains-filter-false t xs k)

filter-Nodup :
    (t : AdminRepo → Bool) (xs : List AdminRepo) → Nodup (keys xs) → Nodup (keys (filter t xs))
filter-Nodup t [] h = tt
filter-Nodup t (x ∷ xs) (fresh, h) =
    if_rule (λ ys. Nodup (keys ys)) (t x)
      (λ _. (contains-filter-false t xs (repo_key x) fresh, filter-Nodup t xs h))
      (λ _. filter-Nodup t xs h)

append-Nodup :
    (s u : List String)
    → Nodup s
    → Nodup u
    → ((k : String) → contains u k ≡ true → contains s k ≡ false)
    → Nodup (s ++ u)
append-Nodup [] u hs hu d = hu
append-Nodup (x ∷ s) u (fresh, hs) hu d = (
  ground (arith, contains-append s u x, d x),
  append-Nodup s u hs hu (λ k m. ground (arith, d k m)),
)

left_items-Nodup :
    (lower : Char → String) (p : Panel) → IsPanel p → Nodup (keys (left_items lower p))
unfolding left_items
left_items-Nodup lower p h = elim (Option-cases p.repos) [
  | inl e ↦ rw e tt
  | inr (xs, e) ↦ rw e (filter-Nodup (is_left lower p) xs (h.repos xs e))
]

move_right-IsPanel : (lower : Char → String) (p : Panel) → IsPanel p → IsPanel (move_right lower p)
unfolding move_right
move_right-IsPanel lower p h = record {
  panel = rw map-append_keys (
      append-Nodup (keys p.right_panel) _ h.panel
        (filter-Nodup _ (left_items lower p) (left_items-Nodup lower p h))
        (λ k m. left_items_disjoint lower p k (of_filter _ _ k m)));
  repos = h.repos;
  selected = λ k s. move_right-keys lower p k ∙ rw (h.selected k s);
}

move_left-IsPanel : (p : Panel) → IsPanel p → IsPanel (move_left p)
unfolding move_left
move_left-IsPanel p h = record {
  panel = filter-Nodup _ p.right_panel h.panel;
  repos = h.repos;
  selected = λ k s. absurd (false≢true s);
}

click_right-selected :
    (p : Panel) (r : AdminRepo)
    → IsPanel p
    → contains (keys p.right_panel) (repo_key r) ≡ true
    → (k : String) → contains (toggle (repo_key r) p.right_selected) k ≡ true
    → contains (keys p.right_panel) k ≡ true
click_right-selected p r h c k s =
    ground (arith, contains-toggle (repo_key r) k p.right_selected, h.selected k)

-- Every event keeps the invariant of the panels, that no repository stands twice on the right or in
-- the loaded list and that what is selected on the right stands there, if a loaded list has none
-- twice and a click on the right is on an item there.
pub handle-IsPanel :
    (lower : Char → String) (p : Panel) (e : Event)
    → IsPanel p
    → IsPossible p e
    → IsPanel (handle lower p e)
unfolding handle
handle-IsPanel lower p (Event.search q) h c = record {
  panel = h.panel;
  repos = h.repos;
  selected = h.selected;
}
handle-IsPanel lower p Event.timeout h c =
    if_rule IsPanel p.timer_running
      (λ _. record { panel = h.panel; repos = h.repos; selected = h.selected }) (λ _. h)
handle-IsPanel lower p (Event.click_left r) h c = record {
  panel = h.panel;
  repos = h.repos;
  selected = h.selected;
}
handle-IsPanel lower p (Event.click_right r) h c = record {
  panel = h.panel;
  repos = h.repos;
  selected = click_right-selected p r h c;
}
handle-IsPanel lower p Event.arrow_right h c = move_right-IsPanel lower p h
handle-IsPanel lower p Event.arrow_left h c = move_left-IsPanel p h
handle-IsPanel lower p (Event.load repos) h c = record {
  panel = h.panel;
  repos = λ rs e. rw (← some-injective _ _ e) c;
  selected = h.selected;
}

-- A sequence of possible events.
pub data Reach (lower : Char → String) (p : Panel) : Panel → Type 0 where
  here : Reach lower p p
  next :
      {q : Panel}
      → Reach lower p q
      → (e : Event) → IsPossible q e
      → Reach lower p (handle lower q e)

Reach-IsPanel : {lower : Char → String} {p q : Panel} → IsPanel p → Reach lower p q → IsPanel q
Reach-IsPanel h here = h
Reach-IsPanel {lower} h (next {q} r e c) = handle-IsPanel lower q e (Reach-IsPanel h r) c

confirmed :
    (xs out : List AdminRepo)
    → (if is_empty xs then none else some xs) ≡ some out
    → (xs ≡ out) × (is_empty out ≡ false)
confirmed [] out e = absurd (none-ne-some out e)
confirmed (x ∷ xs) out e = let q = some-injective _ _ e in (q, rw (← q))

eq_of_confirm :
    (p : Panel) (out : List AdminRepo)
    → confirm p ≡ some out
    → (p.right_panel ≡ out) × (is_empty out ≡ false)
unfolding confirm
eq_of_confirm p out e = confirmed p.right_panel out e

-- Whatever is searched, clicked and loaded: the selection that the dialog confirms is not empty and
-- has no repository twice, if the selection that it was opened with and the lists of the backend
-- have none twice.
pub confirm-Nodup :
    {lower : Char → String} (selected : List AdminRepo) {p : Panel} (out : List AdminRepo)
    → Nodup (keys selected)
    → Reach lower (opened selected none) p
    → confirm p ≡ some out
    → Nodup (keys out) × (is_empty out ≡ false)
confirm-Nodup selected {p} out n r e =
    let start : IsPanel (opened selected none) = record {
      panel = n;
      repos = λ rs e'. absurd (none-ne-some rs e');
      selected = λ k s. absurd (false≢true s);
    } in
    let (same, full) = eq_of_confirm p out e in (rw (← same) (Reach-IsPanel start r).panel, full)
