-- ===== src/Theme.antt =====
-- web/src/components/theme-provider.tsx and theme-toggle.tsx: the theme of the page, kept in local
-- storage, applied to the root element, and changed by the menu, a key, another tab or the system.
-- `lower` is the part of Unicode's lower-case table beyond ASCII. The style element that switches
-- transitions off for two frames is left out.
pub mod Applied
pub mod Switching
mod Tests
use github_action_runners_mu.Prelude.{
  Char, String, Bool, true, false, ◌&&◌, ◌||◌, not, List, [], ◌∷◌, Option, none, some,
  if◌then◌else◌, ◌==◌,
}
use github_action_runners_mu.Prelude.Text.{to_lower_case}
use github_action_runners_mu.Browser.Sets.{add, delete, get, put}

pub data Theme : Type 0 where
  dark light system : Theme

pub data ResolvedTheme : Type 0 where
  dark light : ResolvedTheme

abbrev pub theme_text : Theme → String
theme_text Theme.dark = "dark"
theme_text Theme.light = "light"
theme_text Theme.system = "system"

abbrev pub resolved_text : ResolvedTheme → String
resolved_text ResolvedTheme.dark = "dark"
resolved_text ResolvedTheme.light = "light"

-- `isTheme`, with the theme that the value is then taken for.
unfoldable pub is_theme : Option String → Option Theme
is_theme none = none
is_theme (some value) =
    if value == "dark"
    then some Theme.dark
    else if value == "light"
    then some Theme.light
    else if value == "system"
    then some Theme.system
    else none

-- The browser as the provider sees it: the system's preference, the local storage, the classes of
-- the root element, and whether the provider listens to the media query.
pub record Page : Type 0 where
  pub theme : Theme
  pub prefers_dark : Bool
  pub storage : List (String × String)
  pub root_classes : List String
  pub is_listening : Bool

-- `getSystemTheme`
abbrev pub get_system_theme : Bool → ResolvedTheme
get_system_theme prefers_dark = if prefers_dark then ResolvedTheme.dark else ResolvedTheme.light

-- `nextTheme === "system" ? getSystemTheme() : nextTheme`
abbrev pub resolve : Bool → Theme → ResolvedTheme
resolve prefers_dark Theme.dark = ResolvedTheme.dark
resolve prefers_dark Theme.light = ResolvedTheme.light
resolve prefers_dark Theme.system = get_system_theme prefers_dark

-- `applyTheme`
unfoldable pub apply_theme : Theme → Page → Page
apply_theme next p = record p {
  root_classes =
      add (resolved_text (resolve p.prefers_dark next))
        (delete "dark" (delete "light" p.root_classes));
}

abbrev is_system : Theme → Bool
is_system Theme.system = true
is_system _ = false

-- The effect on the theme: the old listener goes, the theme is applied, and the system's preference
-- is listened to for the theme "system".
unfoldable pub theme_effect : Page → Page
unfolding apply_theme
theme_effect p = record (apply_theme p.theme p) { is_listening = is_system p.theme }

abbrev same_theme : Theme → Theme → Bool
same_theme Theme.dark Theme.dark = true
same_theme Theme.light Theme.light = true
same_theme Theme.system Theme.system = true
same_theme _ _ = false

-- `setThemeState`: React runs the effect only if the theme is another one.
unfoldable pub set_theme_state : Theme → Page → Page
set_theme_state next p =
    let changed = theme_effect (record p { theme = next }) in
    if same_theme p.theme next then p else changed

-- The target of a key: no HTML element, or one that is content-editable or lies in an input.
pub data Target : Type 0 where
  no_element : Target
  element : (is_content_editable has_editable_parent : Bool) → Target

-- `isEditableTarget`
abbrev pub is_editable_target : Target → Bool
is_editable_target no_element = false
is_editable_target (element is_content_editable has_editable_parent) =
    if is_content_editable then true else has_editable_parent

pub record KeyEvent : Type 0 where
  pub repeat : Bool
  pub meta_key : Bool
  pub ctrl_key : Bool
  pub alt_key : Bool
  pub target : Target
  pub key : String

pub record StorageEvent : Type 0 where
  pub is_local : Bool
  pub key : Option String
  pub new_value : Option String

-- `currentTheme === "dark" ? … `
abbrev pub next_theme : Bool → Theme → Theme
next_theme prefers_dark Theme.dark = Theme.light
next_theme prefers_dark Theme.light = Theme.dark
next_theme prefers_dark Theme.system = if prefers_dark then Theme.light else Theme.dark

abbrev or_default : Theme → Option Theme → Theme
or_default d none = d
or_default d (some t) = t

abbrev is_key : String → Option String → Bool
is_key storage_key none = false
is_key storage_key (some k) = k == storage_key

module _ (default_theme : Theme) (storage_key : String) where
  -- The state of the first render: the stored theme or the default.
  abbrev pub first_render : Bool → List (String × String) → List String → Page
  first_render prefers_dark storage root_classes = record {
    theme = or_default default_theme (is_theme (get storage_key storage));
    prefers_dark = prefers_dark;
    storage = storage;
    root_classes = root_classes;
    is_listening = false;
  }

  -- The first render and its effect.
  unfoldable pub mount : Bool → List (String × String) → List String → Page
  mount prefers_dark storage root_classes =
      theme_effect (first_render prefers_dark storage root_classes)

  -- `setTheme`, which an entry of the menu calls with its value
  unfoldable pub set_theme : Theme → Page → Page
  set_theme next p =
      set_theme_state next (record p { storage = put storage_key (theme_text next) p.storage })

  -- The guards of `handleKeyDown`.
  abbrev pub is_toggle_key : (Char → String) → KeyEvent → Bool
  is_toggle_key lower e =
      if e.repeat
      then false
      else if e.meta_key || e.ctrl_key || e.alt_key
      then false
      else if is_editable_target e.target
      then false
      else to_lower_case lower e.key == "d"

  -- `handleKeyDown`
  unfoldable pub handle_key_down : (Char → String) → KeyEvent → Page → Page
  handle_key_down lower e p =
      if is_toggle_key lower e then set_theme (next_theme p.prefers_dark p.theme) p else p

  -- `handleStorageChange`. The storage of the browser already holds the new value.
  unfoldable pub handle_storage_change : StorageEvent → Page → Page
  handle_storage_change e p =
      if not e.is_local
      then p
      else if not (is_key storage_key e.key)
      then p
      else set_theme_state (or_default default_theme (is_theme e.new_value)) p

-- The system's preference changes; `handleChange` runs if it is listened to.
unfoldable pub change_preference : Bool → Page → Page
unfolding apply_theme
change_preference prefers_dark p =
    let q = record p { prefers_dark = prefers_dark } in
    if p.is_listening then apply_theme Theme.system q else q

-- The entries of the menu of theme-toggle.tsx, and whether an entry is marked as active.
abbrev pub themes : List (Theme × String)
themes = (Theme.light, "Light") ∷ (Theme.dark, "Dark") ∷ (Theme.system, "System") ∷ []

unfoldable pub is_active : Page → Theme → Bool
is_active p t = same_theme p.theme t
