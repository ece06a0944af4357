-- ===== src/Capacity/Tests.antt =====
-- Runs of the page of web/src/pages/Settings.tsx on concrete inputs.
use github_action_runners_mu.Prelude.{◌≡◌, refl, ◌≢◌, true, List, [], ◌∷◌, arith}
use github_action_runners_mu.Prelude.Int.{pos, negsuc}
use github_action_runners_mu.Prelude.Text.{parse_int, parse_int_or}
use github_action_runners_mu.Api.Types.{Settings}
use github_action_runners_mu.Capacity.{
  first_render, Event, handle, handle_all, save_disabled, edited,
}
use github_action_runners_mu.Capacity.Laws.{handle_all-ne-zero}

abbrev stored : Settings
stored = record { max_workers = pos 4; warm_workers = pos 1 }

abbrev typed : List Event
typed = Event.edit_max "0" ∷ Event.edit_warm "x" ∷ []

-- A 0 becomes 1, text becomes 0, and a negative number stays.
typed_test :
    (edited (handle_all (handle first_render (Event.load stored)) typed)
      ≡ record { max_workers = pos 1; warm_workers = pos 0 })
    × (edited (handle first_render (Event.edit_max "-5"))
        ≡ record { max_workers = negsuc 4; warm_workers = pos 0 })
    × (save_disabled first_render ≡ true)
unfolding edited handle handle_all save_disabled parse_int_or parse_int
typed_test = (refl, refl, refl)

pos-ne-zero : pos 4 ≢ pos 0
pos-ne-zero = ground arith

handle_all-ne-zero_example :
    (edited (handle_all (handle first_render (Event.load stored)) typed)).max_workers ≢ pos 0
handle_all-ne-zero_example = handle_all-ne-zero stored typed pos-ne-zero (tt, (tt, tt))
