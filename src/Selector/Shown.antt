-- ===== src/Selector/Shown.antt =====
-- What the panels of web/src/components/repo-selector-dialog.tsx show: the lists, the texts in
-- place of an empty list, and which buttons are disabled. Layout is left out.
use github_action_runners_mu.Prelude.{
  ◌+◌, Char, String, ◌<>◌, Bool, false, List, [], ◌∷◌, map, Option, none, some, length, filter,
  contains, is_empty, if◌then◌else◌, ◌==◌, ◌≡◌, refl, ◌⊎◌, inl, inr, arith, All, All-filter,
  text_dec,
}
use github_action_runners_mu.Prelude.Text.{show}
use github_action_runners_mu.Api.Types.{AdminRepo}
use github_action_runners_mu.Selector.{
  Panel, repo_key, repo_label, is_left, left_items, left_orgs, left_repos,
}

-- An item of a list: its text, its title, and whether it is highlighted.
pub record Item : Type 0 where
  pub text : String
  pub host : String
  pub title : String
  pub is_selected : Bool

pub data LeftView : Type 0 where
  skeletons : LeftView
  message : String → LeftView
  sections : (organizations repositories : List Item) → LeftView

pub data RightView : Type 0 where
  message : String → RightView
  items : List Item → RightView

abbrev titled : String → AdminRepo → String
titled label r = label <> (" (" <> (r.host <> ")"))

unfoldable pub org_item : Panel → AdminRepo → Item
org_item p r = record {
  text = r.owner;
  host = r.host;
  title = titled r.owner r;
  is_selected = contains p.left_selected (repo_key r);
}

unfoldable pub repo_item : Panel → AdminRepo → Item
repo_item p r = record {
  text = r.owner <> ("/" <> r.repo);
  host = r.host;
  title = titled (r.owner <> ("/" <> r.repo)) r;
  is_selected = contains p.left_selected (repo_key r);
}

unfoldable pub right_item : Panel → AdminRepo → Item
right_item p r = record {
  text = repo_label r;
  host = r.host;
  title = titled (repo_label r) r;
  is_selected = contains p.right_selected (repo_key r);
}

abbrev empty_text : Option (List AdminRepo) → String
empty_text none = "Loading…"
empty_text (some repos) = "No results found."

unfoldable pub left_view : (Char → String) → Bool → Panel → LeftView
unfolding org_item repo_item
left_view lower is_loading p =
    if is_loading
    then skeletons
    else if is_empty (left_items lower p)
    then LeftView.message (empty_text p.repos)
    else sections (map (org_item p) (left_orgs lower p)) (map (repo_item p) (left_repos lower p))

unfoldable pub right_view : Panel → RightView
unfolding right_item
right_view p =
    if is_empty p.right_panel
    then RightView.message "No items selected."
    else items (map (right_item p) p.right_panel)

-- `disabled` of the arrows and of the confirmation, and its text
abbrev pub arrow_right_disabled : Panel → Bool
arrow_right_disabled p = is_empty p.left_selected

abbrev pub arrow_left_disabled : Panel → Bool
arrow_left_disabled p = is_empty p.right_selected

unfoldable pub confirm_button : Panel → String × Bool
confirm_button p =
    ("Confirm Selection (" <> (show (length p.right_panel) <> ")"), is_empty p.right_panel)

-- The backend knows two types of scopes.
abbrev pub IsScopeType : AdminRepo → Type 0
IsScopeType r = (r.type ≡ "organization") ⊎ (r.type ≡ "repository")

org-ne-repo : ("organization" == "repository") ≡ false
unfolding text_dec
org-ne-repo = refl

repo-ne-org : ("repository" == "organization") ≡ false
unfolding text_dec
repo-ne-org = refl

length-sections :
    (xs : List AdminRepo)
    → All IsScopeType xs
    → length (filter (λ r. r.type == "organization") xs)
        + length (filter (λ r. r.type == "repository") xs)
      ≡ length xs
length-sections [] h = refl
length-sections (x ∷ xs) (inl e, h) = ground (arith, e, org-ne-repo, length-sections xs h)
length-sections (x ∷ xs) (inr e, h) = ground (arith, e, repo-ne-org, length-sections xs h)

-- The two sections on the left together hold every item on offer, if the backend sends only the
-- two types of scopes.
left_sections_complete :
    (lower : Char → String) (p : Panel) (repos : List AdminRepo)
    → p.repos ≡ some repos
    → All IsScopeType repos
    → length (left_orgs lower p) + length (left_repos lower p) ≡ length (left_items lower p)
unfolding left_orgs left_repos left_items
left_sections_complete lower p repos e h =
    rw e (length-sections _ (All-filter IsScopeType (is_left lower p) repos h))
