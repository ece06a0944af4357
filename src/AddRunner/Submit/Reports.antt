-- ===== src/AddRunner/Submit/Reports.antt =====
-- What a submission of web/src/pages/AddRunner.tsx reports, where it navigates, and how many
-- requests it makes.
use mathlib.Core.Option.{none-ne-some, some-injective}
use github_action_runners_mu.Prelude.{
  ◌<>◌, truthy, none, some, ℕ, suc, ◌+◌, ◌<◌, Char, String, true, false, List, [], ◌∷◌, map, Option,
  length, is_zero, ltb, ◌≡◌, refl, ap, ◌∙◌, ◌⊎◌, inl, inr, arith, Bool-cases, if_rule,
}
use github_action_runners_mu.Api.Types.{AdminRepo, AddRunnerPayload, RunnerStatus}
use github_action_runners_mu.Api.Client.{Request, Fetched, Reason, Settled, fulfilled, rejected}
use github_action_runners_mu.Browser.Effects.{Toast}
use github_action_runners_mu.AddRunner.Form.{Mode, Form}
use github_action_runners_mu.AddRunner.Modes.{submit_repos}
use github_action_runners_mu.AddRunner.Submit.{
  payload, payloads, settle_all, succeeded, failed, report, to_runner, send, handle_submit,
}
use github_action_runners_mu.AddRunner.Submit.Laws.{handle_submit-IsSettled}

succeeded_add_failed : (rs : List (Settled (Unit {0}))) → succeeded rs + failed rs ≡ length rs
unfolding succeeded failed
succeeded_add_failed [] = refl
succeeded_add_failed (fulfilled _ ∷ rs) = omega (arith, succeeded_add_failed rs)
succeeded_add_failed (rejected _ ∷ rs) = omega (arith, succeeded_add_failed rs)

length-settle_all :
    (answer : ℕ → Request → Fetched (Unit {0})) (i : ℕ) (ps : List AddRunnerPayload)
    → length (settle_all answer i ps) ≡ length ps
unfolding settle_all
length-settle_all answer i [] = refl
length-settle_all answer i (p ∷ ps) = ap suc (length-settle_all answer (suc i) ps)

-- Every request that settled is counted once, as a success or as a failure.
settle_all_counted :
    (answer : ℕ → Request → Fetched (Unit {0})) (ps : List AddRunnerPayload)
    → succeeded (settle_all answer 0 ps) + failed (settle_all answer 0 ps) ≡ length ps
settle_all_counted answer ps = succeeded_add_failed _ ∙ length-settle_all answer 0 ps

ltb-suc : (n : ℕ) → ltb 0 (suc n) ≡ true
ltb-suc n = ground arith

is_zero-suc : (n : ℕ) → is_zero (suc n) ≡ false
is_zero-suc n = ground arith

-- Where a report on requests that all failed goes: to the page of the runner that the first failure
-- names, or nowhere if it names none or has an empty name.
abbrev pub GoesAfter : Settled (Unit {0}) → List String → Type 0
GoesAfter r places =
    ((m name : String) × (r ≡ rejected (Reason.error m (some name)))
      × (truthy name ≡ true)
      × (places ≡ ("/runner/" <> name) ∷ []))
    ⊎ (((m name : String) → r ≡ rejected (Reason.error m (some name)) → truthy name ≡ false)
        × (places ≡ []))

abbrev named : Settled (Unit {0}) → Option String
named (rejected (Reason.error m runner)) = runner
named r = none

to_runner-GoesAfter : (reason : Reason) → GoesAfter (rejected reason) (to_runner reason)
to_runner-GoesAfter (Reason.error m none) =
    inr ((λ m' name e. absurd (none-ne-some name (ap named e))), refl)
to_runner-GoesAfter (Reason.error m (some name)) = elim (Bool-cases (truthy name)) [
  | inl t ↦ inl (m, name, refl, t, rw t refl)
  | inr f ↦ inr ((λ m' name' e. rw (← some-injective name name' (ap named e)) f), rw f refl)
]
to_runner-GoesAfter Reason.other = inr ((λ m name e. absurd (none-ne-some name (ap named e))), refl)

-- A report on at least one request: if some request succeeded it goes to the overview; if all
-- failed it goes to /runner/ and the name that the first failure carries, or nowhere if it carries
-- none or an empty one.
pub report_navigation :
    (r : Settled (Unit {0})) (rs : List (Settled (Unit {0})))
    → ((0 < succeeded (r ∷ rs)) × ((report (r ∷ rs)).1 ≡ "/" ∷ []))
      ⊎ ((succeeded (r ∷ rs) ≡ 0) × GoesAfter r (report (r ∷ rs)).1)
unfolding report succeeded failed
report_navigation (fulfilled u) rs = inl (
  omega arith,
  rw (ltb-suc (succeeded rs)) (
      if_rule (λ (x : Toast × List String). x.1 ≡ "/" ∷ []) (is_zero (failed rs)) (λ _. refl)
        (λ _. refl)),
)
report_navigation (rejected reason) rs = elim (Bool-cases (ltb 0 (succeeded rs))) [
  | inl e ↦ inl (ground arith, rw (is_zero-suc (failed rs), e))
  | inr e ↦ inr (ground arith, rw (is_zero-suc (failed rs), e) (to_runner-GoesAfter reason))
]

map-payloads_url :
    (lower : Char → String) (random : ℕ → String) (f : Form) (m : Mode) (i : ℕ)
    (rs : List AdminRepo)
    → map (λ p. p.url) (payloads lower random f m i rs) ≡ map (λ r. r.url) rs
unfolding payloads payload
map-payloads_url lower random f m i [] = refl
map-payloads_url lower random f m i (r ∷ rs) =
    ap (λ us. r.url ∷ us) (map-payloads_url lower random f m (suc i) rs)

module _ (lower : Char → String) (random : ℕ → String) (answer : ℕ → Request → Fetched (Unit {0}))
    (existing : Option (List RunnerStatus)) (f : Form) where
  pub sent_urls :
      (toasts : List Toast)
      → map (λ p. p.url) (send lower random answer existing f toasts).sent
        ≡ map (λ r. r.url) (submit_repos existing f.selected_repos f.mode)
  unfolding send
  sent_urls toasts = map-payloads_url lower random f _ 0 _

  -- A submission either sends one request for each scope to submit, in their order, or none.
  handle_submit_urls :
      (map (λ p. p.url) (handle_submit lower random answer existing f).sent
        ≡ map (λ r. r.url) (submit_repos existing f.selected_repos f.mode))
      ⊎ ((handle_submit lower random answer existing f).sent ≡ [])
  handle_submit_urls = elim (handle_submit-IsSettled lower random answer existing f) [
    | inl sent ↦ inl (rw sent.outcome (sent_urls sent.toasts))
    | inr refused ↦ inr refused.sent
  ]

  -- A submission from a form that is not loading leaves the form as it was.
  handle_submit_form : f.loading ≡ false → (handle_submit lower random answer existing f).form ≡ f
  unfolding send
  handle_submit_form h = elim (handle_submit-IsSettled lower random answer existing f) [
    | inl sent ↦ rw sent.outcome (ground arith)
    | inr refused ↦ refused.form
  ]
