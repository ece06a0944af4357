-- ===== src/Theme/Switching.antt =====
-- What switching the theme does: the key, the menu, a reload and another tab
-- (web/src/components/theme-provider.tsx).
use github_action_runners_mu.Prelude.{
  Char, String, Bool, true, false, List, some, ◌≡◌, refl, text_dec, Bool-cases, inl, inr, ==_refl,
  ◌⊎◌,
}
use github_action_runners_mu.Browser.Sets.{get, put, get-put}
use github_action_runners_mu.Theme.{
  Theme, Page, theme_text, is_theme, resolve, theme_effect, set_theme_state, same_theme, set_theme,
  next_theme, is_toggle_key, mount, handle_key_down, handle_storage_change, KeyEvent, StorageEvent,
}
use github_action_runners_mu.Theme.Applied.{opposite}
use mathlib.Core.Bool.{false≢true}

is_theme-theme_text : (t : Theme) → is_theme (some (theme_text t)) ≡ some t
unfolding is_theme text_dec
is_theme-theme_text Theme.dark = refl
is_theme-theme_text Theme.light = refl
is_theme-theme_text Theme.system = refl

-- Two themes with one text are one theme.
eq_of_same_theme : (a b : Theme) → same_theme a b ≡ true → a ≡ b
eq_of_same_theme Theme.dark Theme.dark h = refl
eq_of_same_theme Theme.light Theme.light h = refl
eq_of_same_theme Theme.system Theme.system h = refl
eq_of_same_theme _ _ h = absurd (false≢true h)

theme-set_theme_state : (t : Theme) (p : Page) → (set_theme_state t p).theme ≡ t
unfolding set_theme_state theme_effect
theme-set_theme_state t p = elim (Bool-cases (same_theme p.theme t)) [
  | inl e ↦ rw e (eq_of_same_theme p.theme t e)
  | inr e ↦ rw e
]

-- The effect leaves the storage and the system's preference alone.
kept-set_theme_state :
    (t : Theme) (p : Page)
    → ((set_theme_state t p).storage ≡ p.storage)
      × ((set_theme_state t p).prefers_dark ≡ p.prefers_dark)
unfolding set_theme_state theme_effect
kept-set_theme_state t p = elim (Bool-cases (same_theme p.theme t)) [
  | inl e ↦ (rw e, rw e)
  | inr e ↦ (rw e, rw e)
]

resolve-next_theme : (b : Bool) (t : Theme) → resolve b (next_theme b t) ≡ opposite (resolve b t)
resolve-next_theme b Theme.dark = refl
resolve-next_theme b Theme.light = refl
resolve-next_theme true Theme.system = refl
resolve-next_theme false Theme.system = refl

module _ (default_theme : Theme) (storage_key : String) where
  -- A chosen theme survives a reload: the page that is mounted on the storage left behind has it.
  pub mount-set_theme :
      (t : Theme) (p : Page) (prefers_dark : Bool) (root_classes : List String)
      → (mount default_theme storage_key prefers_dark
          (set_theme default_theme storage_key t p).storage
          root_classes).theme
        ≡ t
  unfolding mount set_theme theme_effect
  mount-set_theme t p prefers_dark root_classes = rw (
    (kept-set_theme_state t (record p { storage = put storage_key (theme_text t) p.storage })).0,
    get-put storage_key storage_key (theme_text t) p.storage,
    ==_refl storage_key,
    is_theme-theme_text t,
  )

  -- A key that passes the guards turns dark to light and light to dark, also where the theme was
  -- that of the system, and any other key changes nothing.
  handle_key_down_lem :
      (lower : Char → String) (e : KeyEvent) (p : Page)
      → let q = handle_key_down default_theme storage_key lower e p in
        ((is_toggle_key default_theme storage_key lower e ≡ true)
          × (resolve q.prefers_dark q.theme ≡ opposite (resolve p.prefers_dark p.theme)))
        ⊎ ((is_toggle_key default_theme storage_key lower e ≡ false) × (q ≡ p))
  unfolding handle_key_down set_theme
  handle_key_down_lem lower e p =
      let chosen = next_theme p.prefers_dark p.theme in
      let stored : Page = record p { storage = put storage_key (theme_text chosen) p.storage } in
      elim (Bool-cases (is_toggle_key default_theme storage_key lower e)) [
        | inl k ↦ inl (
          k,
          rw (k, theme-set_theme_state chosen stored, (kept-set_theme_state chosen stored).1)
              (resolve-next_theme p.prefers_dark p.theme),
        )
        | inr k ↦ inr (k, rw k)
      ]

  -- Another tab that is told of a theme chosen in this one takes it over.
  storage_change_follows :
      (t : Theme) (p other : Page)
      → let e : StorageEvent = record {
        is_local = true;
        key = some storage_key;
        new_value = get storage_key (set_theme default_theme storage_key t p).storage;
      } in
        (handle_storage_change default_theme storage_key e other).theme ≡ t
  unfolding handle_storage_change set_theme
  storage_change_follows t p other =
      rw
        (
          (kept-set_theme_state t
              (record p { storage = put storage_key (theme_text t) p.storage })).0,
          get-put storage_key storage_key (theme_text t) p.storage,
          ==_refl storage_key,
          is_theme-theme_text t,
        )
        (theme-set_theme_state t other)
