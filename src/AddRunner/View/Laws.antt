-- ===== src/AddRunner/View/Laws.antt =====
-- The theorems on what the form of web/src/pages/AddRunner.tsx shows.
use Prim.Native.String.{[], ◌∷◌}
use github_action_runners_mu.Prelude.{
  ℕ, Char, String, ◌<>◌, Bool, true, false, ◌&&◌, not, List, map, Option, filter, is_empty,
  contains, ◌≡◌, refl, sym, ap, ◌∙◌, inl, inr, arith, Bool-cases, if_rule, filter_congr,
}
use github_action_runners_mu.Api.Types.{AdminRepo, RunnerStatus}
use github_action_runners_mu.Api.Client.{Request, Fetched}
use github_action_runners_mu.Browser.Url.{Url}
use github_action_runners_mu.AddRunner.Form.{Mode, mode_text, Form, fine_grained}
use github_action_runners_mu.AddRunner.Modes.{
  is_batch, is_single_maximized, display_mode, submit_repos, single_scope_modes,
}
use github_action_runners_mu.AddRunner.Modes.Laws.{
  has_runner, loaded, KnownModes, submit_repos_lem, contains-scope_mode_map, effective_mode_free,
}
use github_action_runners_mu.AddRunner.Pats.{pat_input}
use github_action_runners_mu.AddRunner.Submit.{handle_submit}
use github_action_runners_mu.AddRunner.Submit.Laws.{HasTokens, handle_submit_sends}
use github_action_runners_mu.AddRunner.View.{
  row, mode_item_disabled, submit_disabled, before_paren, starts_paren, token_input,
}
use text.Mathlib.TextLemmas.{cons-append, nil-append}
use mathlib.Core.Bool.{false≢true}
use github_action_runners_mu.AddRunner.Submit.Reports.{sent_urls}

will_be_ignored-row :
    (parse_url : String → Option Url) (existing : Option (List RunnerStatus)) (f : Form)
    (r : AdminRepo)
    → (row parse_url existing f r).will_be_ignored
      ≡ (is_batch f.selected_repos && has_runner r.url (mode_text f.mode) (loaded existing))
unfolding row
will_be_ignored-row parse_url existing f r =
    rw (contains-scope_mode_map existing r.url (mode_text f.mode))

filter-true {ℓ} : {A : Type ℓ} (xs : List A) → filter (λ _. true) xs ≡ xs
filter-true List.[] = refl
filter-true (List.◌∷◌ x xs) = rw (filter-true xs)

-- The scopes that a submission takes are the selected ones whose row is not marked "will be
-- ignored".
submit_repos-rows :
    (parse_url : String → Option Url) (existing : Option (List RunnerStatus)) (f : Form)
    → submit_repos existing f.selected_repos f.mode
      ≡ filter (λ r. not (row parse_url existing f r).will_be_ignored) f.selected_repos
submit_repos-rows parse_url existing f = elim (Bool-cases (is_batch f.selected_repos)) [
  | inl e ↦
      rw (submit_repos_lem existing f.selected_repos f.mode, e)
        (filter_congr _ _ f.selected_repos
          (λ r. rw (will_be_ignored-row parse_url existing f r, e)))
  | inr e ↦
      rw (submit_repos_lem existing f.selected_repos f.mode, e)
        (sym (filter-true f.selected_repos)
          ∙ filter_congr (λ _. true) _ f.selected_repos
              (λ r. rw (will_be_ignored-row parse_url existing f r, e)))
]

shown_item_free :
    (existing : Option (List RunnerStatus)) (selected_repos : List AdminRepo) (mode : Mode)
    → KnownModes (loaded existing)
    → is_single_maximized existing selected_repos mode ≡ false
    → (not (is_batch selected_repos)
        && contains
            (single_scope_modes existing selected_repos mode)
            (mode_text (display_mode existing selected_repos mode)))
      ≡ false
unfolding display_mode single_scope_modes
shown_item_free existing List.[] mode k m = refl
shown_item_free existing (List.◌∷◌ r List.[]) mode k m = effective_mode_free existing r mode k m
shown_item_free existing (List.◌∷◌ r (List.◌∷◌ s rs)) mode k m = ground arith

-- The mode that the toggle shows is not a disabled item, unless the scope is maximized, if the
-- loaded runners have one of the two known modes.
display_mode_enabled :
    (parse_url : String → Option Url) (existing : Option (List RunnerStatus)) (f : Form)
    → KnownModes (loaded existing)
    → is_single_maximized existing f.selected_repos f.mode ≡ false
    → mode_item_disabled parse_url existing f (display_mode existing f.selected_repos f.mode)
      ≡ false
unfolding mode_item_disabled
display_mode_enabled parse_url existing f k m = shown_item_free existing f.selected_repos f.mode k m

-- No " (" in a text.
abbrev pub paren_free : String → Bool
paren_free [] = true
paren_free (c ∷ s) = not (starts_paren (c ∷ s)) && paren_free s

paren_append : (rest : String) → " (" <> rest ≡ " " ∷ ("(" ∷ rest)
paren_append rest = rw (cons-append, cons-append, nil-append)

before_paren-cons :
    (c : Char) (t : String)
    → starts_paren (c ∷ t) ≡ false
    → before_paren (c ∷ t) ≡ c ∷ before_paren t
unfolding before_paren
before_paren-cons c t h =
    if_rule (λ x. x ≡ c ∷ before_paren t) (starts_paren (c ∷ t))
      (λ e. absurd (false≢true (sym h ∙ e))) (λ _. refl)

before_paren-paren : (rest : String) → before_paren (" " ∷ ("(" ∷ rest)) ≡ ""
unfolding before_paren
before_paren-paren rest = refl

-- The text before the first " (" of an owner without " (" followed by " (" is the owner.
before_paren-append :
    (owner rest : String) → paren_free owner ≡ true → before_paren (owner <> (" (" <> rest)) ≡ owner
before_paren-append [] rest h = rw (nil-append, paren_append) (before_paren-paren rest)
before_paren-append (c ∷ []) rest h =
    rw (cons-append, nil-append, paren_append)
      (before_paren-cons c _ (ground arith) ∙ ap (λ t. c ∷ t) (before_paren-paren rest))
before_paren-append (c ∷ d ∷ s) rest h =
    let ih = before_paren-append (d ∷ s) rest (ground arith) in
    rw (cons-append, cons-append)
      (before_paren-cons c _ (ground arith) ∙ ap (λ t. c ∷ t) (rw cons-append at ih))

-- The guide that a fine-grained token input opens is about the owner whose token the input asks
-- for, if the owner's name has no " (".
token_input-owner :
    (pats : List (String × String)) (r : AdminRepo)
    → paren_free r.owner ≡ true
    → ((token_input fine_grained pats (pat_input fine_grained r)).guide.owner ≡ r.owner)
      × ((token_input fine_grained pats (pat_input fine_grained r)).guide.host ≡ r.host)
unfolding token_input pat_input
token_input-owner pats r h = (before_paren-append r.owner _ h, refl)

is_empty_submit :
    (existing : Option (List RunnerStatus)) (selected_repos : List AdminRepo) (mode : Mode)
    → is_empty selected_repos ≡ false
    → (is_batch selected_repos && is_empty (submit_repos existing selected_repos mode)) ≡ false
    → is_empty (submit_repos existing selected_repos mode) ≡ false
is_empty_submit existing selected_repos mode n b = elim (Bool-cases (is_batch selected_repos)) [
  | inl e ↦ ground arith
  | inr e ↦ rw (submit_repos_lem existing selected_repos mode, e) n
]

-- A form whose submit button is enabled and whose tokens are all there sends its requests: one for
-- each selected scope whose row is not marked "will be ignored", in their order, and there is at
-- least one such row.
pub submit_enabled_sends :
    (lower : Char → String) (random : ℕ → String) (answer : ℕ → Request → Fetched (Unit {0}))
    (parse_url : String → Option Url) (existing : Option (List RunnerStatus)) (f : Form)
    → submit_disabled parse_url existing f ≡ false
    → HasTokens f (display_mode existing f.selected_repos f.mode)
    → let unmarked =
        filter (λ r. not (row parse_url existing f r).will_be_ignored) f.selected_repos in
      (map (λ p. p.url) (handle_submit lower random answer existing f).sent
        ≡ map (λ r. r.url) unmarked)
      × (is_empty unmarked ≡ false)
unfolding submit_disabled
submit_enabled_sends lower random answer parse_url existing f h t =
    let (toasts, e) =
      handle_submit_sends lower random answer existing f (ground arith) (ground arith)
        (ground arith) t in
    rw (← submit_repos-rows parse_url existing f) (
      rw e (sent_urls lower random answer existing f toasts),
      is_empty_submit existing f.selected_repos f.mode (ground arith) (ground arith),
    )
