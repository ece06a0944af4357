-- ===== src/Capacity.antt =====
-- web/src/pages/Settings.tsx: the page that edits the limits of the worker pool.
pub mod Laws
mod Tests
use github_action_runners_mu.Prelude.{
  String, Bool, true, false, not, ◌||◌, Option, none, some, List, [], ◌∷◌,
}
use github_action_runners_mu.Prelude.Int.{ℤ, pos}
use github_action_runners_mu.Prelude.Text.{parse_int_or}
use github_action_runners_mu.Browser.Effects.{Toast, success, error}
use github_action_runners_mu.Api.Types.{Settings}
use github_action_runners_mu.Api.Client.{
  Request, Fetched, Settled, update_settings, fulfilled, rejected,
}
use github_action_runners_mu.AddRunner.Submit.{message_of}

-- The state of SettingsPage, with what `useSWR` has loaded.
pub record Page : Type 0 where
  pub settings : Option Settings
  pub max_workers : ℤ
  pub warm_workers : ℤ
  pub saving : Bool

abbrev pub first_render : Page
first_render = record { settings = none; max_workers = pos 0; warm_workers = pos 0; saving = false }

-- New settings arrive, which the effect copies to the inputs, or an input is edited.
pub data Event : Type 0 where
  load : Settings → Event
  edit_max : String → Event
  edit_warm : String → Event

unfoldable pub handle : Page → Event → Page
handle p (load s) = record p {
  settings = some s;
  max_workers = s.max_workers;
  warm_workers = s.warm_workers;
}
handle p (edit_max value) = record p { max_workers = parse_int_or value 1 }
handle p (edit_warm value) = record p { warm_workers = parse_int_or value 0 }

unfoldable pub handle_all : Page → List Event → Page
handle_all p [] = p
handle_all p (e ∷ es) = handle_all (handle p e) es

abbrev is_loaded : Option Settings → Bool
is_loaded none = false
is_loaded (some s) = true

-- `disabled` of the button
unfoldable pub save_disabled : Page → Bool
save_disabled p = p.saving || not (is_loaded p.settings)

-- What `api.updateSettings` is given.
unfoldable pub edited : Page → Settings
edited p = record { max_workers = p.max_workers; warm_workers = p.warm_workers }

-- The notification, and whether the settings are loaded again.
abbrev saved : Settled (Unit {0}) → Toast × Bool
saved (fulfilled _) = (Toast.success "Settings saved successfully", true)
saved (rejected r) = (Toast.error (message_of r), false)

-- `saveSettings`: its effects, and the page when it has ended.
unfoldable pub save_settings : (Request → Fetched (Unit {0})) → Page → (Toast × Bool) × Page
unfolding edited
save_settings answer p = (saved (update_settings answer (edited p)), record p { saving = false })
