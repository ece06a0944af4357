-- ===== src/Selector/Tests.antt =====
-- Runs of the selection dialog of web/src/components/repo-selector-dialog.tsx on concrete inputs.
use github_action_runners_mu.Prelude.{
  true, Char, String, ◌≡◌, refl, false, none, some, ◌∷◌, text_dec, is_empty, [],
}
use github_action_runners_mu.Prelude.Text.{show, lower_char, to_lower_case, starts_with, includes}
use github_action_runners_mu.Selector.{
  repo_key, repo_label, Panel, opened, matches, left_items, left_orgs, left_repos, move_right,
  move_left, toggle, Event, handle, confirm,
}
use github_action_runners_mu.Selector.Shown.{
  LeftView, RightView, left_view, right_view, confirm_button, skeletons,
}
use github_action_runners_mu.Browser.Sets.{add, delete, set_of, Nodup}
use github_action_runners_mu.Api.Types.{AdminRepo}
use github_action_runners_mu.Selector.Panels.{keys}
use github_action_runners_mu.Selector.Invariant.{IsPanel, handle-IsPanel, Reach, confirm-Nodup}
use mathlib.Core.Option.{some-injective}

run : Unit {0}
unfolding repo_key repo_label matches left_items left_orgs left_repos move_right move_left toggle
    handle confirm add delete set_of to_lower_case lower_char includes starts_with text_dec
run = tt

abbrev no_lower : Char → String
no_lower c = "?"

abbrev app : AdminRepo
app = record {
  host = "github.com";
  owner = "acme";
  repo = "app";
  url = "https://github.com/acme/app";
  type = "repository";
}

abbrev acme : AdminRepo
acme = record {
  host = "github.com";
  owner = "acme";
  repo = "";
  url = "https://github.com/acme";
  type = "organization";
}

-- Opened on the organization, with both scopes loaded.
abbrev panel : Panel
panel = record (opened (acme ∷ []) (some (app ∷ acme ∷ []))) {
  left_selected = "github.com:acme:app" ∷ [];
  right_selected = "github.com:acme:" ∷ [];
}

moves_test :
    ((move_right no_lower panel).right_panel ≡ acme ∷ app ∷ [])
    × ((move_left panel).right_panel ≡ [])
    × (left_items no_lower (record panel { debounced_query = "ACME/A" }) ≡ app ∷ [])
    × (left_items no_lower (record panel { debounced_query = "lib" }) ≡ [])
unfolding run
moves_test = (refl, refl, refl, refl)

panel-IsPanel : IsPanel panel
unfolding run
panel-IsPanel = record {
  panel = (refl, tt);
  repos = λ rs e. rw (← some-injective _ _ e) (refl, (refl, tt));
  selected = λ k s. s;
}

handle-IsPanel_example : IsPanel (handle no_lower panel Event.arrow_right)
handle-IsPanel_example = handle-IsPanel no_lower panel Event.arrow_right panel-IsPanel tt

-- The list is loaded, an item is clicked, and the arrow moves it.
abbrev loaded : Panel
loaded = handle no_lower (opened (acme ∷ []) none) (Event.load (app ∷ acme ∷ []))

abbrev clicked : Panel
clicked = handle no_lower loaded (Event.click_left app)

abbrev moved : Panel
moved = handle no_lower clicked Event.arrow_right

moved-Reach : Reach no_lower (opened (acme ∷ []) none) moved
unfolding run
moved-Reach =
    Reach.next
      (Reach.next (Reach.next Reach.here (Event.load (app ∷ acme ∷ [])) (refl, (refl, tt)))
        (Event.click_left app) tt)
      Event.arrow_right tt

confirm-Nodup_example : Nodup (keys (acme ∷ app ∷ [])) × (is_empty (acme ∷ app ∷ []) ≡ false)
unfolding run
confirm-Nodup_example = confirm-Nodup (acme ∷ []) (acme ∷ app ∷ []) (refl, tt) moved-Reach refl

view_test :
    (confirm_button panel ≡ ("Confirm Selection (1)", false))
    × (left_view no_lower false (record panel { debounced_query = "lib" })
        ≡ LeftView.message "No results found.")
    × (left_view no_lower true panel ≡ skeletons)
    × (right_view (move_left panel) ≡ RightView.message "No items selected.")
unfolding run confirm_button left_view right_view show
view_test = (refl, refl, refl, refl)
