-- ===== src/AddRunner/Submit/Tokens.antt =====
-- Which tokens, modes and names the requests of a submission carry (web/src/pages/AddRunner.tsx).
use github_action_runners_mu.Prelude.{
  ℕ, suc, Char, String, true, false, List, [], ◌∷◌, Option, none, some, truthy, contains, ◌==◌, ◌≡◌,
  refl, ◌⊎◌, inl, inr, arith, All, Bool-cases, if_rule, Option-cases, ==_iff, All-imp, All-filter,
  ◌∙◌,
}
use github_action_runners_mu.Api.Types.{AdminRepo, AddRunnerPayload, RunnerStatus}
use github_action_runners_mu.Api.Client.{Request, Fetched}
use github_action_runners_mu.Browser.Sets.{get}
use github_action_runners_mu.AddRunner.Form.{Mode, standalone, scaleset, PatType, Form}
use github_action_runners_mu.AddRunner.Modes.{
  is_single_maximized, display_mode, submit_repos, is_batch,
}
use github_action_runners_mu.AddRunner.Modes.Laws.{
  has_runner, loaded, KnownModes, submit_repos_free,
}
use github_action_runners_mu.AddRunner.Pats.{PatInput, get_pat_key, pat_inputs}
use github_action_runners_mu.AddRunner.Pats.Laws.{keys, has_key, pat_inputs-keys}
use github_action_runners_mu.AddRunner.Submit.{missing_pat, payload, payloads, send, handle_submit}
use github_action_runners_mu.AddRunner.Submit.Laws.{HasTokens, handle_submit-IsSettled}
use mathlib.Core.Bool.{false≢true}
use mathlib.Core.Option.{some-ne-none}

-- A token that is not empty is stored under the key.
abbrev HasPat : List (String × String) → String → Type 0
HasPat pats key = (pat : String) × (get key pats ≡ some pat) × (truthy pat ≡ true)

missing_pat-cons :
    (pats : List (String × String)) (input : PatInput) (inputs : List PatInput)
    → missing_pat pats (input ∷ inputs) ≡ none
    → HasPat pats input.key × (missing_pat pats inputs ≡ none)
unfolding missing_pat
missing_pat-cons pats input inputs h = elim (Option-cases (get input.key pats)) [
  | inl absent ↦ absurd (some-ne-none input (rw (absent, missing_pat) at h))
  | inr (pat, found) ↦ ((pat, found, ground arith), ground arith)
]

HasPat-of_no_missing :
    (pats : List (String × String)) (inputs : List PatInput) (key : String)
    → missing_pat pats inputs ≡ none
    → contains (keys inputs) key ≡ true
    → HasPat pats key
HasPat-of_no_missing pats [] key h c = absurd (false≢true c)
HasPat-of_no_missing pats (input ∷ inputs) key h c =
    let (pat, later) = missing_pat-cons pats input inputs h in
    elim (Bool-cases (input.key == key)) [
      | inl same ↦ rw (← (==_iff input.key key).0 same) pat
      | inr differ ↦ HasPat-of_no_missing pats inputs key later (ground arith)
    ]

-- A standalone request carries no token, and a scale set request one that is not empty.
abbrev pub PatFits : AddRunnerPayload → Type 0
PatFits p =
    ((p.mode ≡ "standalone") × (p.pat ≡ none))
    ⊎ ((p.mode ≡ "scaleset") × ((pat : String) × (p.pat ≡ some pat) × (truthy pat ≡ true)))

module _ (lower : Char → String) (random : ℕ → String) (f : Form) (m : Mode) where
  -- What holds of the payload of each repo of a list holds of the payloads.
  pub payloads_rule :
      (P : AddRunnerPayload → Type 0) (Q : AdminRepo → Type 0)
      → ((i : ℕ) (r : AdminRepo) → Q r → P (payload lower random f m i r))
      → (i : ℕ) (rs : List AdminRepo) → All Q rs
      → All P (payloads lower random f m i rs)
  unfolding payloads
  payloads_rule P Q h i [] q = tt
  payloads_rule P Q h i (r ∷ rs) (q, qs) = (h i r q, payloads_rule P Q h (suc i) rs qs)

module _ (lower : Char → String) (random : ℕ → String) (answer : ℕ → Request → Fetched (Unit {0}))
    (existing : Option (List RunnerStatus)) (f : Form) where
  -- What holds of the payloads of a submission that passes the checks holds of all that is sent.
  pub sent_rule :
      (P : AddRunnerPayload → Type 0)
      → (is_single_maximized existing f.selected_repos f.mode ≡ false
          → HasTokens f (display_mode existing f.selected_repos f.mode)
          → All P (
              payloads lower random f
                (display_mode existing f.selected_repos f.mode)
                0
                (submit_repos existing f.selected_repos f.mode)))
      → All P (handle_submit lower random answer existing f).sent
  unfolding send
  sent_rule P h = elim (handle_submit-IsSettled lower random answer existing f) [
    | inl sent ↦ rw sent.outcome (h sent.passes.not_maximized sent.passes.tokens)
    | inr refused ↦ rw refused.sent tt
  ]

  -- No request registers a runner in a mode that a loaded runner of the same URL already has, if
  -- the loaded runners have one of the two known modes.
  pub handle_submit_no_duplicate :
      KnownModes (loaded existing)
      → All
          (λ p. has_runner p.url p.mode (loaded existing) ≡ false)
          (handle_submit lower random answer existing f).sent
  unfolding payload
  handle_submit_no_duplicate k =
      sent_rule (λ p. has_runner p.url p.mode (loaded existing) ≡ false)
        λ m t.
          payloads_rule lower random f _ (λ p. has_runner p.url p.mode (loaded existing) ≡ false) _
            (λ i r q. q) 0 _ (submit_repos_free existing f.selected_repos f.mode k m)

has_key_weaken :
    (t : PatType) (x : AdminRepo) (xs ys : List AdminRepo)
    → All (λ r. has_key t (get_pat_key t r) xs ≡ true) ys
    → All (λ r. has_key t (get_pat_key t r) (x ∷ xs) ≡ true) ys
has_key_weaken t x xs ys = All-imp _ _ ys (λ r h. ground arith)

All-has_key :
    (t : PatType) (xs : List AdminRepo) → All (λ r. has_key t (get_pat_key t r) xs ≡ true) xs
All-has_key t [] = tt
All-has_key t (x ∷ xs) = (ground arith, has_key_weaken t x xs xs (All-has_key t xs))

-- What holds of the selected repos holds of those that are submitted.
All-submit_repos :
    (P : AdminRepo → Type 0) (existing : Option (List RunnerStatus))
    (selected_repos : List AdminRepo) (mode : Mode)
    → All P selected_repos
    → All P (submit_repos existing selected_repos mode)
unfolding submit_repos
All-submit_repos P existing selected_repos mode h =
    if_rule (All P) (is_batch selected_repos) (λ _. All-filter P _ selected_repos h) (λ _. h)

payload-PatFits :
    (lower : Char → String) (random : ℕ → String) (f : Form) (m : Mode)
    → HasTokens f m
    → (i : ℕ) (r : AdminRepo)
    → has_key f.pat_type (get_pat_key f.pat_type r) f.selected_repos ≡ true
    → PatFits (payload lower random f m i r)
unfolding payload
payload-PatFits lower random f standalone t i r h = inl (refl, refl)
payload-PatFits lower random f scaleset t i r h = inr (
  refl,
  HasPat-of_no_missing f.pats (pat_inputs f.pat_type f.selected_repos) (get_pat_key f.pat_type r) t
      ((pat_inputs-keys f.pat_type f.selected_repos (get_pat_key f.pat_type r)).1 ∙ h),
)

module _ (lower : Char → String) (random : ℕ → String) (answer : ℕ → Request → Fetched (Unit {0}))
    (existing : Option (List RunnerStatus)) (f : Form) where
  -- Every request is a standalone one without a token, or a scale set one with a token that is not
  -- empty.
  pub handle_submit-PatFits : All PatFits (handle_submit lower random answer existing f).sent
  handle_submit-PatFits = sent_rule lower random answer existing f PatFits λ m t.
      payloads_rule lower random f _ PatFits _ (payload-PatFits lower random f _ t) 0 _ (
        All-submit_repos _ existing f.selected_repos f.mode
          (All-has_key f.pat_type f.selected_repos))
