-- ===== src/AddRunner/Tests/Names.antt =====
-- The names, scopes and tokens of web/src/pages/AddRunner.tsx on concrete inputs.
use github_action_runners_mu.Prelude.{
  ◌≡◌, refl, sym, ap, ◌≢◌, ◌↔◌, true, not, [], ◌∷◌, ◌==◌, truthy, filter, All,
}
use github_action_runners_mu.Prelude.Text.{to_lower_case}
use github_action_runners_mu.AddRunner.Name.{sanitize_name, is_valid_name, generate_name}
use github_action_runners_mu.AddRunner.Name.Slug.{IsSlug, word_free}
use github_action_runners_mu.AddRunner.Name.Laws.{
  sanitize_name-fixed_iff, sanitize_name-eq-nil_iff, is_valid_name-generate_name,
}
use github_action_runners_mu.AddRunner.Form.{initial, handle_all, scaleset}
use github_action_runners_mu.AddRunner.Modes.{submit_repos}
use github_action_runners_mu.AddRunner.Modes.Laws.{has_runner, loaded, submit_repos_lem}
use github_action_runners_mu.AddRunner.Naming.{display_name}
use github_action_runners_mu.AddRunner.Naming.Laws.{
  handle_submit-valid_names, display_name-ne-runner_name,
}
use github_action_runners_mu.AddRunner.Submit.{runner_name, handle_submit}
use github_action_runners_mu.AddRunner.Tests.{
  run, no_lower, fixed_ids, all_good, at_repo, app, acme, existing, inputs, single,
}
use mathlib.Core.Bool.{false≢true}

sanitize_name-fixed_iff_example : (sanitize_name no_lower "a-B" ≡ "a-B") ↔ IsSlug "a-B"
sanitize_name-fixed_iff_example = sanitize_name-fixed_iff no_lower "a-B"

sanitize_name-eq-nil_iff_example :
    (sanitize_name no_lower "..!" ≡ "") ↔ (word_free (to_lower_case no_lower "..!") ≡ true)
sanitize_name-eq-nil_iff_example = sanitize_name-eq-nil_iff no_lower "..!"

is_valid_name-generate_name_example : is_valid_name (generate_name no_lower "k3x9ab" app) ≡ true
unfolding run
is_valid_name-generate_name_example = is_valid_name-generate_name no_lower "k3x9ab" app refl

submit_repos_lem_example :
    submit_repos existing (app ∷ acme ∷ []) scaleset
    ≡ filter (λ r. not (has_runner r.url "scaleset" (loaded existing))) (app ∷ acme ∷ [])
submit_repos_lem_example = submit_repos_lem existing (app ∷ acme ∷ []) scaleset

handle_submit-valid_names_example :
    All
      (λ p. is_valid_name p.name ≡ true)
      (handle_submit no_lower fixed_ids all_good existing
        (handle_all no_lower (initial "z") inputs)).sent
unfolding run
handle_submit-valid_names_example =
    handle_submit-valid_names no_lower fixed_ids all_good existing "z" inputs refl (λ i. refl)

display_name-ne-runner_name_example :
    display_name at_repo no_lower single ≢ runner_name no_lower fixed_ids single 0 app
unfolding run
display_name-ne-runner_name_example =
    display_name-ne-runner_name at_repo no_lower fixed_ids single app "acme-app" refl refl refl refl
      (λ e. absurd (false≢true (sym (ap truthy e)))) refl
      (λ e. absurd (false≢true (ap (λ s. s == "k3x9ab") (sym e))))
