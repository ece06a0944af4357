-- ===== src/Theme/Applied.antt =====
-- The root element always has the class of the theme in force, whatever happens
-- (web/src/components/theme-provider.tsx).
use github_action_runners_mu.Prelude.{
  Char, String, Bool, true, false, not, List, [], ◌∷◌, ◌≡◌, ◌≢◌, refl, sym, ◌∙◌, arith, contains,
  if_rule,
}
use github_action_runners_mu.Browser.Sets.{add, delete, put, contains-add, contains-delete}
use github_action_runners_mu.Theme.{
  Theme, ResolvedTheme, Page, theme_text, resolved_text, resolve, theme_effect, is_system,
  set_theme_state, same_theme, set_theme, mount, handle_key_down, handle_storage_change,
  change_preference, KeyEvent, StorageEvent, get_system_theme, is_toggle_key, is_key, first_render,
}
use text.Mathlib.TextEquality.{eq_iff}
use mathlib.Core.Bool.{false≢true}

abbrev pub opposite : ResolvedTheme → ResolvedTheme
opposite ResolvedTheme.dark = ResolvedTheme.light
opposite ResolvedTheme.light = ResolvedTheme.dark

-- The root element has the class of the resolved theme and not that of the other one, and the
-- system's preference is listened to exactly under the theme "system".
pub record IsApplied (p : Page) : Type 0 where
  pub has : contains p.root_classes (resolved_text (resolve p.prefers_dark p.theme)) ≡ true
  pub lacks :
      contains p.root_classes (resolved_text (opposite (resolve p.prefers_dark p.theme))) ≡ false
  pub listening : p.is_listening ≡ is_system p.theme

dark-ne-light : ◌≢◌ {A = String} "dark" "light"
dark-ne-light = ground (arith, eq_iff "dark" "light")

contains-applied :
    (t : ResolvedTheme) (classes : List String)
    → (contains (add (resolved_text t) (delete "dark" (delete "light" classes))) (resolved_text t)
        ≡ true)
      × (contains
            (add (resolved_text t) (delete "dark" (delete "light" classes)))
            (resolved_text (opposite t))
          ≡ false)
contains-applied ResolvedTheme.dark classes =
    let rest = delete "light" classes in
    (
      ground (arith, contains-add "dark" "dark" (delete "dark" rest)),
      ground (
        arith,
        dark-ne-light,
        contains-add "dark" "light" (delete "dark" rest),
        contains-delete "dark" "light" rest,
        contains-delete "light" "light" classes,
      ),
    )
contains-applied ResolvedTheme.light classes =
    let rest = delete "light" classes in
    (
      ground (arith, contains-add "light" "light" (delete "dark" rest)),
      ground (
        arith,
        dark-ne-light,
        contains-add "light" "dark" (delete "dark" rest),
        contains-delete "dark" "dark" rest,
      ),
    )

theme_effect-IsApplied : (p : Page) → IsApplied (theme_effect p)
unfolding theme_effect
theme_effect-IsApplied p =
    let (has, lacks) = contains-applied (resolve p.prefers_dark p.theme) p.root_classes in
    record { has = has; lacks = lacks; listening = refl }

set_theme_state-IsApplied : (t : Theme) (p : Page) → IsApplied p → IsApplied (set_theme_state t p)
unfolding set_theme_state
set_theme_state-IsApplied t p h =
    if_rule IsApplied (same_theme p.theme t) (λ _. h) (λ _. theme_effect-IsApplied _)

eq-system_of_is_system : (t : Theme) → is_system t ≡ true → t ≡ Theme.system
eq-system_of_is_system Theme.system h = refl
eq-system_of_is_system _ h = absurd (false≢true h)

resolve_of_not_system : (b c : Bool) (t : Theme) → is_system t ≡ false → resolve b t ≡ resolve c t
resolve_of_not_system b c Theme.system h = absurd (false≢true (sym h))
resolve_of_not_system b c Theme.dark h = refl
resolve_of_not_system b c Theme.light h = refl

change_preference-IsApplied :
    (b : Bool) (p : Page) → IsApplied p → IsApplied (change_preference b p)
unfolding change_preference
change_preference-IsApplied b p h =
    if_rule IsApplied p.is_listening
      (λ e.
        let t = eq-system_of_is_system p.theme (sym h.listening ∙ e) in
        let (has, lacks) = contains-applied (get_system_theme b) p.root_classes in
        record { has = rw t has; lacks = rw t lacks; listening = h.listening })
      (λ e.
        let r = resolve_of_not_system b p.prefers_dark p.theme (sym h.listening ∙ e) in
        record { has = rw r h.has; lacks = rw r h.lacks; listening = h.listening })

set_theme-IsApplied :
    (d : Theme) (key : String) (t : Theme) (p : Page)
    → IsApplied p
    → IsApplied (set_theme d key t p)
unfolding set_theme
set_theme-IsApplied d key t p h =
    set_theme_state-IsApplied t (record p { storage = put key (theme_text t) p.storage })
      (record { has = h.has; lacks = h.lacks; listening = h.listening })

-- What can happen to the page.
pub data Event : Type 0 where
  choose : Theme → Event
  key_down : KeyEvent → Event
  storage_change : StorageEvent → Event
  preference : Bool → Event

module _ (lower : Char → String) (default_theme : Theme) (storage_key : String) where
  unfoldable pub step : Page → Event → Page
  step p (choose t) = set_theme default_theme storage_key t p
  step p (key_down e) = handle_key_down default_theme storage_key lower e p
  step p (storage_change e) = handle_storage_change default_theme storage_key e p
  step p (preference b) = change_preference b p

  unfoldable pub steps : Page → List Event → Page
  steps p [] = p
  steps p (e ∷ es) = steps (step p e) es

  step-IsApplied : (p : Page) (e : Event) → IsApplied p → IsApplied (step p e)
  unfolding step handle_key_down handle_storage_change
  step-IsApplied p (choose t) h = set_theme-IsApplied default_theme storage_key t p h
  step-IsApplied p (key_down e) h =
      if_rule IsApplied (is_toggle_key default_theme storage_key lower e)
        (λ _. set_theme-IsApplied default_theme storage_key _ p h) (λ _. h)
  step-IsApplied p (storage_change e) h =
      if_rule IsApplied (not e.is_local) (λ _. h)
        λ _.
          if_rule IsApplied (not (is_key storage_key e.key)) (λ _. h)
            (λ _. set_theme_state-IsApplied _ p h)
  step-IsApplied p (preference b) h = change_preference-IsApplied b p h

  steps-IsApplied : (p : Page) (es : List Event) → IsApplied p → IsApplied (steps p es)
  unfolding steps
  steps-IsApplied p [] h = h
  steps-IsApplied p (e ∷ es) h = steps-IsApplied (step p e) es (step-IsApplied p e h)

  -- Whatever happens after the first render, the root element has the class of the theme in force
  -- and not that of the other one, and the system's preference is listened to exactly under the
  -- theme "system".
  pub mount-IsApplied :
      (prefers_dark : Bool) (storage : List (String × String)) (root_classes : List String)
      (es : List Event)
      → IsApplied (steps (mount default_theme storage_key prefers_dark storage root_classes) es)
  unfolding mount
  mount-IsApplied prefers_dark storage root_classes es =
      steps-IsApplied (mount default_theme storage_key prefers_dark storage root_classes) es (
        theme_effect-IsApplied
          (first_render default_theme storage_key prefers_dark storage root_classes))
