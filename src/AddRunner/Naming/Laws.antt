-- ===== src/AddRunner/Naming/Laws.antt =====
-- The theorems on the names that a submission sends (web/src/pages/AddRunner.tsx).
use github_action_runners_mu.Prelude.{
  ℕ, Char, String, ◌<>◌, true, false, List, [], ◌∷◌, Option, some, truthy, if◌then◌else◌, ◌≡◌, ◌≢◌,
  refl, sym, ◌∙◌, inl, inr, arith, All, Bool-cases, All-of,
}
use github_action_runners_mu.Api.Types.{AdminRepo, RunnerStatus}
use github_action_runners_mu.Api.Client.{Request, Fetched}
use github_action_runners_mu.Browser.Url.{Url}
use github_action_runners_mu.AddRunner.Name.{
  all_allowed, is_valid_name, generate_name, sanitize_name,
}
use github_action_runners_mu.AddRunner.Name.Laws.{is_valid_name-generate_name}
use github_action_runners_mu.AddRunner.Form.{Form, Input, initial, handle_all}
use github_action_runners_mu.AddRunner.Form.Laws.{IsNamed, initial-IsNamed}
use github_action_runners_mu.AddRunner.Naming.{
  name_base, display_name, is_name_invalid, single_repo, is_batch,
}
use github_action_runners_mu.AddRunner.Submit.{runner_name, payload, handle_submit}
use github_action_runners_mu.AddRunner.Submit.Tokens.{payloads_rule, sent_rule}
use text.Mathlib.TextLemmas.{append_assoc, append_cancel_left}

runner_name-valid :
    (lower : Char → String) (random : ℕ → String) (f : Form) (i : ℕ) (r : AdminRepo)
    → IsNamed f
    → is_name_invalid f ≡ false
    → all_allowed (random i) ≡ true
    → is_valid_name (runner_name lower random f i r) ≡ true
unfolding runner_name is_name_invalid
runner_name-valid lower random f i r n v a =
    ground (arith, is_valid_name-generate_name lower (random i) r a)

-- Whatever the user did to the inputs: if the form does not call the name invalid, every name that
-- a submission sends passes the name check, given that the random identifiers have allowed
-- characters only.
pub handle_submit-valid_names :
    (lower : Char → String) (random : ℕ → String) (answer : ℕ → Request → Fetched (Unit {0}))
    (existing : Option (List RunnerStatus)) (random_id : String) (is : List Input)
    → is_name_invalid (handle_all lower (initial random_id) is) ≡ false
    → ((i : ℕ) → all_allowed (random i) ≡ true)
    → All
        (λ p. is_valid_name p.name ≡ true)
        (handle_submit lower random answer existing (handle_all lower (initial random_id) is)).sent
unfolding payload
handle_submit-valid_names lower random answer existing random_id is v a =
    let f = handle_all lower (initial random_id) is in
    let n = initial-IsNamed lower random_id is in
    sent_rule lower random answer existing f (λ p. is_valid_name p.name ≡ true)
      λ m t.
        payloads_rule lower random f _ (λ p. is_valid_name p.name ≡ true) (λ _. Unit {0})
          (λ i r _. runner_name-valid lower random f i r n v (a i)) 0 _
          (All-of (λ _. Unit) _ (λ _. tt))

-- The part of a generated name before the random identifier.
name_prefix : (Char → String) → AdminRepo → String
name_prefix lower r =
    if truthy r.repo
    then sanitize_name lower r.owner <> ("-" <> sanitize_name lower r.repo)
    else sanitize_name lower r.owner

generate_name-prefix :
    (lower : Char → String) (x : String) (r : AdminRepo)
    → generate_name lower x r ≡ name_prefix lower r <> ("-" <> x)
unfolding generate_name name_prefix
generate_name-prefix lower x r = elim (Bool-cases (truthy r.repo)) [
  | inl e ↦ rw e (simp append_assoc)
  | inr e ↦ rw e
]

single_repo-not_batch :
    (rs : List AdminRepo) {r : AdminRepo} → single_repo rs ≡ some r → is_batch rs ≡ false
single_repo-not_batch [] h = refl
single_repo-not_batch (r ∷ []) h = refl
single_repo-not_batch (r ∷ s ∷ rs) h = cc

shown_name :
    (parse_url : String → Option Url) (lower : Char → String) (f : Form) (r : AdminRepo)
    (base : String)
    → single_repo f.selected_repos ≡ some r
    → f.name_manually_edited ≡ false
    → name_base parse_url lower f ≡ some base
    → base ≢ ""
    → display_name parse_url lower f ≡ base <> ("-" <> f.random_id)
unfolding display_name
shown_name parse_url lower f r base s e b n =
    rw (single_repo-not_batch f.selected_repos s, e, b) (ground arith)

-- The name that the form proposes for a single scope and shows is not the name that it sends: the
-- submission generates another one. For a scope whose proposed name is what generateName makes of
-- the identifier shown, the two differ whenever the two random identifiers differ.
pub display_name-ne-runner_name :
    (parse_url : String → Option Url) (lower : Char → String) (random : ℕ → String) (f : Form)
    (r : AdminRepo) (base : String)
    → single_repo f.selected_repos ≡ some r
    → f.name_manually_edited ≡ false
    → f.name ≡ ""
    → name_base parse_url lower f ≡ some base
    → base ≢ ""
    → generate_name lower f.random_id r ≡ base <> ("-" <> f.random_id)
    → random 0 ≢ f.random_id
    → display_name parse_url lower f ≢ runner_name lower random f 0 r
unfolding runner_name
display_name-ne-runner_name parse_url lower random f r base s e m b n g d same =
    let sent : runner_name lower random f 0 r ≡ generate_name lower (random 0) r =
      rw (single_repo-not_batch f.selected_repos s, m) (ground arith) in
    let shown = shown_name parse_url lower f r base s e b n in
    let tails =
      sym (generate_name-prefix lower f.random_id r)
      ∙ g
      ∙ sym shown
      ∙ same
      ∙ sent
      ∙ generate_name-prefix lower (random 0) r in
    d (sym (append_cancel_left "-" _ _ (append_cancel_left (name_prefix lower r) _ _ tails)))
