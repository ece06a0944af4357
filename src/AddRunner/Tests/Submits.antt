-- ===== src/AddRunner/Tests/Submits.antt =====
-- Submissions of web/src/pages/AddRunner.tsx on concrete inputs.
use github_action_runners_mu.Prelude.{
  ◌<◌, ◌≡◌, refl, ◌⊎◌, false, some, [], ◌∷◌, map, is_empty, All, filter, not,
}
use github_action_runners_mu.Api.Client.{Reason, Settled, rejected}
use github_action_runners_mu.AddRunner.Form.{Form, scaleset}
use github_action_runners_mu.AddRunner.Modes.Laws.{has_runner, loaded}
use github_action_runners_mu.AddRunner.Submit.{succeeded, report, handle_submit}
use github_action_runners_mu.AddRunner.Submit.Laws.{IsSettled, handle_submit-IsSettled}
use github_action_runners_mu.AddRunner.Submit.Tokens.{
  PatFits, handle_submit_no_duplicate, handle_submit-PatFits,
}
use github_action_runners_mu.AddRunner.Submit.Reports.{GoesAfter, report_navigation}
use github_action_runners_mu.AddRunner.View.{row}
use github_action_runners_mu.AddRunner.View.Laws.{submit_enabled_sends}
use github_action_runners_mu.AddRunner.Tests.{
  run, no_lower, fixed_ids, all_good, at_repo, app, acme, existing, existing-KnownModes, batch,
  single,
}

handle_submit-IsSettled_example :
    IsSettled no_lower fixed_ids all_good existing batch
      (handle_submit no_lower fixed_ids all_good existing batch)
handle_submit-IsSettled_example = handle_submit-IsSettled no_lower fixed_ids all_good existing batch

handle_submit_no_duplicate_example :
    All
      (λ p. has_runner p.url p.mode (loaded existing) ≡ false)
      (handle_submit no_lower fixed_ids all_good existing batch).sent
handle_submit_no_duplicate_example =
    handle_submit_no_duplicate no_lower fixed_ids all_good existing batch existing-KnownModes

handle_submit-PatFits_example :
    All PatFits (handle_submit no_lower fixed_ids all_good existing batch).sent
handle_submit-PatFits_example = handle_submit-PatFits no_lower fixed_ids all_good existing batch

-- A failure that names a runner.
abbrev conflict : Settled (Unit {0})
conflict = rejected (Reason.error "exists" (some "acme-app"))

report_navigation_example :
    ((0 < succeeded (conflict ∷ [])) × ((report (conflict ∷ [])).1 ≡ "/" ∷ []))
    ⊎ ((succeeded (conflict ∷ []) ≡ 0) × GoesAfter conflict (report (conflict ∷ [])).1)
report_navigation_example = report_navigation conflict []

abbrev single_scaleset : Form
single_scaleset = record single { mode = scaleset }

submit_enabled_sends_example :
    let unmarked =
      filter (λ r. not (row at_repo existing batch r).will_be_ignored) (app ∷ acme ∷ []) in
    (map (λ p. p.url) (handle_submit no_lower fixed_ids all_good existing batch).sent
      ≡ map (λ r. r.url) unmarked)
    × (is_empty unmarked ≡ false)
unfolding run
submit_enabled_sends_example =
    submit_enabled_sends no_lower fixed_ids all_good at_repo existing batch refl refl
