-- ===== src/Capacity/Laws.antt =====
-- The theorems on the page of the settings (web/src/pages/Settings.tsx).
use github_action_runners_mu.Prelude.{[], arith, ℕ, suc, String, ◌≢◌, List, ◌∷◌, All}
use github_action_runners_mu.Capacity.{Page, first_render, Event, handle, handle_all, edited}
use github_action_runners_mu.Prelude.Int.{pos}
use github_action_runners_mu.Prelude.Text.{parse_int_or}
use github_action_runners_mu.Api.Types.{Settings}

parse_int_or-ne-zero : (s : String) (d : ℕ) → parse_int_or s (suc d) ≢ pos 0
unfolding parse_int_or
parse_int_or-ne-zero s d = ground arith

-- No settings with the maximum 0 arrive.
abbrev pub IsSane : Event → Type 0
IsSane (Event.load s) = s.max_workers ≢ pos 0
IsSane _ = Unit

handle-ne-zero :
    (p : Page) (e : Event)
    → (edited p).max_workers ≢ pos 0
    → IsSane e
    → (edited (handle p e)).max_workers ≢ pos 0
unfolding handle edited
handle-ne-zero p (Event.load s) h c = c
handle-ne-zero p (Event.edit_max value) h c = parse_int_or-ne-zero value 0
handle-ne-zero p (Event.edit_warm value) h c = h

handle_all-keeps :
    (p : Page) (es : List Event)
    → (edited p).max_workers ≢ pos 0
    → All IsSane es
    → (edited (handle_all p es)).max_workers ≢ pos 0
unfolding handle_all
handle_all-keeps p [] h c = h
handle_all-keeps p (e ∷ es) h (c, cs) = handle_all-keeps (handle p e) es (handle-ne-zero p e h c) cs

-- The maximum that the page would save is never 0 behind settings whose maximum is not 0, whatever
-- is typed and loaded, as long as no settings with the maximum 0 are loaded.
pub handle_all-ne-zero :
    (s : Settings) (es : List Event)
    → s.max_workers ≢ pos 0
    → All IsSane es
    → (edited (handle_all (handle first_render (Event.load s)) es)).max_workers ≢ pos 0
unfolding handle edited
handle_all-ne-zero s es h c = handle_all-keeps (handle first_render (Event.load s)) es h c
