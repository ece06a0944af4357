-- ===== src/Theme/Tests.antt =====
-- Runs of the theme provider of web/src/components/theme-provider.tsx on concrete inputs.
use github_action_runners_mu.Prelude.{
  Char, String, ◌≡◌, refl, true, false, some, List, ◌∷◌, text_dec, [],
}
use github_action_runners_mu.Prelude.Text.{lower_char, to_lower_case}
use github_action_runners_mu.Browser.Sets.{add, delete, get, put}
use github_action_runners_mu.Theme.{
  Theme, is_theme, Page, apply_theme, theme_effect, set_theme_state, KeyEvent, mount, set_theme,
  handle_key_down, handle_storage_change, change_preference, is_active, element,
}
use github_action_runners_mu.Theme.Applied.{IsApplied, Event, step, steps, mount-IsApplied}
use github_action_runners_mu.Theme.Switching.{mount-set_theme}

run : Unit {0}
unfolding is_theme apply_theme theme_effect set_theme_state mount set_theme handle_key_down
    handle_storage_change change_preference is_active add delete get put to_lower_case lower_char
    text_dec step steps
run = tt

abbrev no_lower : Char → String
no_lower c = "?"

abbrev key_d : KeyEvent
key_d = record {
  repeat = false;
  meta_key = false;
  ctrl_key = false;
  alt_key = false;
  target = element false false;
  key = "D";
}

-- A page under the system's dark theme, where nothing is stored.
abbrev page : Page
page = mount Theme.system "theme" true [] []

events : List Event
events =
    Event.key_down key_d
    ∷ Event.preference false
    ∷ Event.storage_change
        (record { is_local = true; key = some "theme"; new_value = some "nonsense" })
    ∷ Event.preference true
    ∷ []

page_test :
    (page.root_classes ≡ "dark" ∷ [])
    × ((handle_key_down Theme.system "theme" no_lower key_d page).root_classes ≡ "light" ∷ [])
    × ((handle_key_down Theme.system "theme" no_lower key_d page).storage ≡ ("theme", "light") ∷ [])
unfolding run
page_test = (refl, refl, refl)

events_test : (steps no_lower Theme.system "theme" page events).root_classes ≡ "dark" ∷ []
unfolding run events
events_test = refl

mount-IsApplied_example :
    IsApplied (steps no_lower Theme.system "theme" (mount Theme.system "theme" true [] []) events)
mount-IsApplied_example = mount-IsApplied no_lower Theme.system "theme" true [] [] events

mount-set_theme_example :
    (mount Theme.system "theme" false
      (set_theme Theme.system "theme" Theme.dark page).storage
      []).theme
    ≡ Theme.dark
mount-set_theme_example = mount-set_theme Theme.system "theme" Theme.dark page false []
