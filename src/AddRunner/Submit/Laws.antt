-- ===== src/AddRunner/Submit/Laws.antt =====
-- The theorems on what `handleSubmit` sends (web/src/pages/AddRunner.tsx).
use github_action_runners_mu.Prelude.{
  ◌∷◌, filter, sym, ◌∙◌, true, ℕ, Char, String, false, ◌&&◌, not, List, [], Option, none, some,
  is_empty, ◌≡◌, refl, ◌⊎◌, inl, inr, arith, Bool-cases, if_rule,
}
use github_action_runners_mu.Api.Types.{RunnerStatus}
use github_action_runners_mu.Api.Client.{Request, Fetched}
use github_action_runners_mu.Browser.Effects.{Toast}
use github_action_runners_mu.AddRunner.Form.{Mode, standalone, scaleset, Form}
use github_action_runners_mu.AddRunner.Modes.{
  is_batch, is_single_maximized, display_mode, submit_repos, ignored_scopes, conflicts,
}
use github_action_runners_mu.AddRunner.Pats.{PatInput, pat_inputs}
use github_action_runners_mu.AddRunner.Submit.{
  missing_pat, Outcome, refuse, send, check_pats, check_ignored, handle_submit, pats_checked,
  ignored_notice,
}
use mathlib.Core.Option.{some-ne-none}
use mathlib.Core.Bool.{false≢true}

-- The tokens that the submitted mode needs are there.
abbrev NoneMissing : Mode → Option PatInput → Type 0
NoneMissing standalone missing = Unit
NoneMissing scaleset missing = missing ≡ none

abbrev pub HasTokens : Form → Mode → Type 0
HasTokens f m = NoneMissing m (missing_pat f.pats (pat_inputs f.pat_type f.selected_repos))

nil_of_is_empty {ℓ} : {A : Type ℓ} (xs : List A) → is_empty xs ≡ true → xs ≡ []
nil_of_is_empty [] h = refl
nil_of_is_empty (x ∷ xs) h = absurd (false≢true h)

filter-true {ℓ} : {A : Type ℓ} (xs : List A) → filter (λ _. true) xs ≡ xs
filter-true [] = refl
filter-true (x ∷ xs) = rw (filter-true xs)

submit_repos_all :
    (existing : Option (List RunnerStatus)) (f : Form)
    → is_batch f.selected_repos ≡ true
    → ignored_scopes existing f.selected_repos f.mode ≡ []
    → submit_repos existing f.selected_repos f.mode ≡ f.selected_repos
unfolding submit_repos ignored_scopes
submit_repos_all existing f e none_ignored =
    let k : filter (conflicts existing f.mode) f.selected_repos ≡ [] = rw e at none_ignored in
    rw (e, k) (filter-true f.selected_repos)

-- A batch without an ignored scope has one left to submit.
none_ignored_left :
    (existing : Option (List RunnerStatus)) (f : Form)
    → is_empty f.selected_repos ≡ false
    → (is_batch f.selected_repos
        && not (is_empty (ignored_scopes existing f.selected_repos f.mode)))
      ≡ false
    → (is_batch f.selected_repos && is_empty (submit_repos existing f.selected_repos f.mode))
      ≡ false
none_ignored_left existing f n b = elim (Bool-cases (is_batch f.selected_repos)) [
  | inr e ↦ rw e refl
  | inl e ↦
      let none_ignored : ignored_scopes existing f.selected_repos f.mode ≡ [] =
        nil_of_is_empty _ (ground arith) in
      rw (e, submit_repos_all existing f e none_ignored) n
]

module _ (lower : Char → String) (random : ℕ → String) (answer : ℕ → Request → Fetched (Unit {0}))
    (existing : Option (List RunnerStatus)) (f : Form) where
  -- What the checks ask for.
  pub record Passes : Type 0 where
    pub nonempty : is_empty f.selected_repos ≡ false
    pub not_maximized : is_single_maximized existing f.selected_repos f.mode ≡ false
    pub left :
        (is_batch f.selected_repos && is_empty (submit_repos existing f.selected_repos f.mode))
        ≡ false
    pub tokens : HasTokens f (display_mode existing f.selected_repos f.mode)

  -- A submission that went through all the checks.
  pub record IsSent (o : Outcome) : Type 0 where
    pub passes : Passes
    pub toasts : List Toast
    pub outcome : o ≡ send lower random answer existing f toasts

  -- A submission that one of the checks ended.
  pub record IsRefused (o : Outcome) : Type 0 where
    pub fails : ¬ Passes
    pub sent : o.sent ≡ []
    pub navigations : o.navigations ≡ []
    pub form : o.form ≡ f

  abbrev pub IsSettled : Outcome → Type 0
  IsSettled o = IsSent o ⊎ IsRefused o

  refuse-IsSettled :
      (toasts : List Toast) (message : String) → ¬ Passes → IsSettled (refuse f toasts message)
  refuse-IsSettled toasts message fails =
      inr (record { fails = fails; sent = refl; navigations = refl; form = refl })

  module _ (nonempty : is_empty f.selected_repos ≡ false)
      (not_maximized : is_single_maximized existing f.selected_repos f.mode ≡ false)
      (left : (is_batch f.selected_repos
          && is_empty (submit_repos existing f.selected_repos f.mode))
        ≡ false)
      (toasts : List Toast) where
    sent-IsSettled :
        HasTokens f (display_mode existing f.selected_repos f.mode)
        → IsSettled (send lower random answer existing f toasts)
    sent-IsSettled tokens = inl (record {
      passes = record {
        nonempty = nonempty;
        not_maximized = not_maximized;
        left = left;
        tokens = tokens;
      };
      toasts = toasts;
      outcome = refl;
    })

    pats_checked-IsSettled :
        (m : Mode) (missing : Option PatInput)
        → display_mode existing f.selected_repos f.mode ≡ m
        → missing_pat f.pats (pat_inputs f.pat_type f.selected_repos) ≡ missing
        → IsSettled (pats_checked lower random answer existing f toasts m missing)
    unfolding pats_checked
    pats_checked-IsSettled standalone missing e e' = sent-IsSettled (rw e tt)
    pats_checked-IsSettled scaleset none e e' = sent-IsSettled (rw e e')
    pats_checked-IsSettled scaleset (some input) e e' =
        refuse-IsSettled toasts _
          λ (p : Passes). absurd (some-ne-none input (rw (e, e') at p.tokens))

    check_pats-IsSettled : IsSettled (check_pats lower random answer existing f toasts)
    unfolding check_pats
    check_pats-IsSettled = pats_checked-IsSettled _ _ refl refl

  -- Every submission either passes the checks and is sent, or fails one of them and is refused,
  -- which sends nothing, navigates nowhere and leaves the form alone. The checks: something is
  -- selected, a single scope has a mode left, a batch has a scope that is not ignored, and the
  -- tokens that the mode needs are there.
  pub handle_submit-IsSettled : IsSettled (handle_submit lower random answer existing f)
  unfolding handle_submit check_ignored
  handle_submit-IsSettled =
      if_rule IsSettled (is_empty f.selected_repos)
        (λ y. refuse-IsSettled [] _ λ p. false≢true (sym p.nonempty ∙ y))
        λ n.
          if_rule IsSettled (is_single_maximized existing f.selected_repos f.mode)
            (λ y. refuse-IsSettled [] _ λ p. false≢true (sym p.not_maximized ∙ y))
            λ m.
              if_rule IsSettled
                (is_batch f.selected_repos
                  && not (is_empty (ignored_scopes existing f.selected_repos f.mode)))
                (λ b.
                  if_rule IsSettled (is_empty (submit_repos existing f.selected_repos f.mode))
                    (λ y. refuse-IsSettled [] _ λ p. false≢true (ground (arith, p.left, b, y)))
                    (λ y. check_pats-IsSettled n m (ground (arith, y)) _))
                (λ b. check_pats-IsSettled n m (none_ignored_left existing f n b) _)

  pats_checked_sends :
      (toasts : List Toast) (m : Mode) (missing : Option PatInput)
      → NoneMissing m missing
      → pats_checked lower random answer existing f toasts m missing
        ≡ send lower random answer existing f toasts
  unfolding pats_checked
  pats_checked_sends toasts standalone missing t = refl
  pats_checked_sends toasts scaleset none t = refl
  pats_checked_sends toasts scaleset (some input) t = absurd (some-ne-none input t)

  -- A submission that meets no check sends its requests.
  pub handle_submit_sends :
      is_empty f.selected_repos ≡ false
      → is_single_maximized existing f.selected_repos f.mode ≡ false
      → (is_batch f.selected_repos && is_empty (submit_repos existing f.selected_repos f.mode))
        ≡ false
      → HasTokens f (display_mode existing f.selected_repos f.mode)
      → (toasts : List Toast) × (handle_submit lower random answer existing f
          ≡ send lower random answer existing f toasts)
  unfolding handle_submit check_ignored check_pats
  handle_submit_sends n m b t =
      elim (Bool-cases (
        is_batch f.selected_repos
        && not (is_empty (ignored_scopes existing f.selected_repos f.mode)))) [
          | inl ignoring ↦
              let left : is_empty (submit_repos existing f.selected_repos f.mode) ≡ false =
                ground arith in
              (
                ignored_notice lower random answer existing f,
                rw (n, m, ignoring, left) (pats_checked_sends _ _ _ t),
              )
          | inr none_ignored ↦ ([], rw (n, m, none_ignored) (pats_checked_sends _ _ _ t))
        ]
