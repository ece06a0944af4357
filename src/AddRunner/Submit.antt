-- ===== src/AddRunner/Submit.antt =====
-- `handleSubmit` of web/src/pages/AddRunner.tsx. `random` gives the identifiers of the successive
-- calls of Math.random, and `answer` what the network answers to each request.
pub mod Laws
pub mod Reports
pub mod Tokens
use github_action_runners_mu.Prelude.{
  ℕ, zero, suc, ◌+◌, Char, String, ◌<>◌, Bool, true, false, ◌&&◌, ◌||◌, not, List, [], ◌∷◌, ◌++◌,
  map, Option, none, some, length, is_empty, is_zero, ltb, truthy, or_text, if◌then◌else◌, ◌==◌,
}
use github_action_runners_mu.Prelude.Int.{ℤ, is_pos}
use github_action_runners_mu.Prelude.Text.{split, trim, show}
use github_action_runners_mu.Api.Types.{AdminRepo, AddRunnerPayload, RunnerStatus}
use github_action_runners_mu.Api.Client.{
  Request, Fetched, Reason, Settled, fulfilled, rejected, add_runner,
}
use github_action_runners_mu.Browser.Sets.{get}
use github_action_runners_mu.Browser.Effects.{Toast}
use github_action_runners_mu.AddRunner.Name.{generate_name}
use github_action_runners_mu.AddRunner.Form.{Mode, standalone, scaleset, mode_text, Form}
use github_action_runners_mu.AddRunner.Modes.{
  is_batch, is_single_maximized, display_mode, ignored_scopes, submit_repos,
}
use github_action_runners_mu.AddRunner.Pats.{PatInput, get_pat_key, pat_inputs}

-- The loop over `patInputs`: the first entry whose token is missing or empty.
unfoldable pub missing_pat : List (String × String) → List PatInput → Option PatInput
missing_pat pats [] = none
missing_pat pats (input ∷ inputs) = elim (get input.key pats) [
  | none ↦ some input
  | some pat ↦ if truthy pat then missing_pat pats inputs else some input
]

-- `labels ? labels.split(",").map(l => l.trim()) : undefined`
unfoldable pub split_labels : String → Option (List String)
split_labels labels = if truthy labels then some (map trim (split b',' labels)) else none

abbrev pub positive : ℤ → Option ℤ
positive n = if is_pos n then some n else none

-- The name of the i-th request.
unfoldable pub runner_name : (Char → String) → (ℕ → String) → Form → ℕ → AdminRepo → String
runner_name lower random f i repo =
    if is_batch f.selected_repos
    then generate_name lower (random i) repo
    else or_text f.name (generate_name lower (random i) repo)

module _ (lower : Char → String) (random : ℕ → String) (f : Form) (submit_mode : Mode) where
  -- What `api.addRunner` is given for a repo.
  unfoldable pub payload : ℕ → AdminRepo → AddRunnerPayload
  unfolding runner_name
  payload i repo = record {
    name = runner_name lower random f i repo;
    mode = mode_text submit_mode;
    url = repo.url;
    pat = elim submit_mode [
      | scaleset ↦ get (get_pat_key f.pat_type repo) f.pats
      | standalone ↦ none
    ];
    max_runners = positive f.max_runners;
    labels = split_labels f.labels;
    runner_group = if not (truthy repo.repo) && truthy f.group then some f.group else none;
  }

  unfoldable pub payloads : ℕ → List AdminRepo → List AddRunnerPayload
  payloads i [] = []
  payloads i (repo ∷ repos) = payload i repo ∷ payloads (suc i) repos

-- `Promise.allSettled`: every request is made, and the results keep the order.
unfoldable pub settle_all :
    (ℕ → Request → Fetched (Unit {0})) → ℕ → List AddRunnerPayload → List (Settled (Unit {0}))
settle_all answer i [] = []
settle_all answer i (p ∷ ps) = add_runner (answer i) p ∷ settle_all answer (suc i) ps

unfoldable pub succeeded : List (Settled (Unit {0})) → ℕ
succeeded [] = 0
succeeded (fulfilled _ ∷ rs) = suc (succeeded rs)
succeeded (rejected _ ∷ rs) = succeeded rs

unfoldable pub failed : List (Settled (Unit {0})) → ℕ
failed [] = 0
failed (fulfilled _ ∷ rs) = failed rs
failed (rejected _ ∷ rs) = suc (failed rs)

-- What a submission does: the notifications, the places navigated to, the payloads sent, and the
-- state of the form at its end.
pub record Outcome : Type 0 where
  pub toasts : List Toast
  pub navigations : List String
  pub sent : List AddRunnerPayload
  pub form : Form

abbrev plural : ℕ → String
plural n = if ltb 1 n then "s" else ""

abbrev pub message_of : Reason → String
message_of (Reason.error m runner) = m
message_of Reason.other = "Unknown error"

-- `if (reason?.runnerName) navigate(…)`
abbrev pub to_runner : Reason → List String
to_runner (Reason.error m none) = []
to_runner (Reason.error m (some n)) = if truthy n then ("/runner/" <> n) ∷ [] else []
to_runner Reason.other = []

-- `results[0]`, read as a rejection
abbrev first_reason : List (Settled (Unit {0})) → Reason
first_reason [] = Reason.other
first_reason (fulfilled _ ∷ rs) = Reason.other
first_reason (rejected r ∷ rs) = r

-- The notification and the navigation after all requests have settled.
unfoldable pub report : List (Settled (Unit {0})) → Toast × List String
report results =
    let ok = succeeded results in
    let bad = failed results in
    if is_zero bad
    then (Toast.success (show ok <> (" runner" <> (plural ok <> " added successfully"))), "/" ∷ [])
    else if ltb 0 ok
    then (
      Toast.error
          (show ok <> (" succeeded, " <> (show bad <> " failed. Check the overview for details."))),
      "/" ∷ [],
    )
    else (
      Toast.error
          ("All " <> (show bad <> (" runner(s) failed: " <> message_of (first_reason results)))),
      to_runner (first_reason results),
    )

-- A submission that ends early with an error.
abbrev refuse : Form → List Toast → String → Outcome
refuse f toasts message = record {
  toasts = toasts ++ (Toast.error message ∷ []);
  navigations = [];
  sent = [];
  form = f;
}

module _ (lower : Char → String) (random : ℕ → String) (answer : ℕ → Request → Fetched (Unit {0}))
    (existing : Option (List RunnerStatus)) (f : Form) where
  -- From the check of the tokens on, behind the notifications made so far.
  unfoldable pub send : List Toast → Outcome
  unfolding display_mode
  send toasts =
      let mode = display_mode existing f.selected_repos f.mode in
      let ps = payloads lower random f mode 0 (submit_repos existing f.selected_repos f.mode) in
      let (toast, places) = report (settle_all answer 0 ps) in
      record {
        toasts = toasts ++ (toast ∷ []);
        navigations = places;
        sent = ps;
        form = record f { loading = false };
      }

  -- A missing token is looked for in scale set mode only.
  unfoldable pub pats_checked : List Toast → Mode → Option PatInput → Outcome
  pats_checked toasts standalone missing = send toasts
  pats_checked toasts scaleset none = send toasts
  pats_checked toasts scaleset (some input) =
      refuse f toasts ("PAT is required for " <> input.label)

  unfoldable pub check_pats : List Toast → Outcome
  unfolding pats_checked
  check_pats toasts =
      pats_checked toasts (display_mode existing f.selected_repos f.mode)
        (missing_pat f.pats (pat_inputs f.pat_type f.selected_repos))

  -- The notification of a batch with ignored scopes.
  abbrev pub ignored_notice : List Toast
  ignored_notice =
      Toast.info (
        show (length (ignored_scopes existing f.selected_repos f.mode))
        <> (" scope(s) ignored (already have " <> (mode_text f.mode <> ")")))
      ∷ []

  -- The branch of a batch with ignored scopes.
  unfoldable pub check_ignored : Outcome
  check_ignored =
      if is_batch f.selected_repos
        && not (is_empty (ignored_scopes existing f.selected_repos f.mode))
      then if is_empty (submit_repos existing f.selected_repos f.mode)
        then refuse f [] (
            "All "
            <> (show (length f.selected_repos)
                <> (" scopes already have a " <> (mode_text f.mode <> " runner — nothing to add"))))
        else check_pats ignored_notice
      else check_pats []

  unfoldable pub handle_submit : Outcome
  handle_submit =
      if is_empty f.selected_repos
      then refuse f [] "Please select at least one repository or organization"
      else if is_single_maximized existing f.selected_repos f.mode
      then refuse f []
          "This scope already has both standalone and scaleset runners — remove one first"
      else check_ignored
