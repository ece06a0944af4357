-- ===== src/Server/Cleared.antt =====
-- The update form of web/src/pages/RunnerDetail.tsx over the service that stores what it sends
-- (pkg/dashboard/handlers_runner.go, service.go): which stored values it can clear.
use github_action_runners_mu.Prelude.{
  String, [], Option, none, some, ◌≡◌, true, arith, truthy, ==_refl,
}
use github_action_runners_mu.Prelude.Int.{pos, is_pos}
use github_action_runners_mu.Api.Types.{UpdateRunnerPayload, RunnerDetail}
use github_action_runners_mu.Browser.Url.{Url}
use github_action_runners_mu.Detail.{Config, config_payload}
use github_action_runners_mu.AddRunner.Submit.{split_labels}
use github_action_runners_mu.Mux.{Row}
use github_action_runners_mu.Server.{Tables, find_runner}
use github_action_runners_mu.Server.Service.{World, UpdateRunnerInput, refusing, update_runner}
use github_action_runners_mu.Server.Invariant.{IsTable}
use github_action_runners_mu.Server.Updates.{updated, update_runner-find_runner}

abbrev or_zero {ℓ} : {A : Type ℓ} → A → Option A → A
or_zero zero none = zero
or_zero zero (some a) = a

-- What the handler reads from the request's body: a field that is undefined is left out of the JSON,
-- and decoding leaves its zero value.
abbrev pub input_of : String → UpdateRunnerPayload → UpdateRunnerInput
input_of reg_token p = record {
  pat = or_zero "" p.pat;
  max_runners = or_zero (pos 0) p.max_runners;
  labels = or_zero [] p.labels;
  runner_group = or_zero "" p.runner_group;
  reg_token = reg_token;
}

-- How a stored row may change under an update of a form.
pub record IsKept (field : String) (old new : Row) : Type 0 where
  pub pat : truthy old.pat ≡ true → truthy new.pat ≡ true
  pub max_runners : is_pos old.max_runners ≡ true → is_pos new.max_runners ≡ true
  pub runner_group : truthy old.runner_group ≡ true → truthy new.runner_group ≡ true
  pub labels : field ≡ "" → new.labels ≡ old.labels

updated-IsKept :
    (parse_url : String → Option Url) (detail : RunnerDetail) (c : Config) (reg_token : String)
    (r : Row)
    → IsKept c.labels r (updated (input_of reg_token (config_payload parse_url detail c)) r)
unfolding config_payload split_labels
updated-IsKept parse_url detail c reg_token r = record {
  pat = ground arith;
  max_runners = ground arith;
  runner_group = ground arith;
  labels = λ e. rw e (ground arith);
}

-- An update that the page of a runner sends, and that reaches a runner without a live process, clears
-- neither the stored token nor a positive maximum nor the stored group, whatever is typed, and keeps
-- the stored labels if the field for them is empty. The tables have unique names and identifiers.
pub update_runner-IsKept :
    (w : World) (name reg_token : String) (parse_url : String → Option Url) (detail : RunnerDetail)
    (c : Config) (db : Tables) (r : Row)
    → IsTable db
    → find_runner name db.runners ≡ some r
    → refusing (w.live name) ≡ none
    → let after =
        (update_runner w name (input_of reg_token (config_payload parse_url detail c)) db).1 in
      (q : Row) × (find_runner name after.runners ≡ some q) × IsKept c.labels r q
update_runner-IsKept w name reg_token parse_url detail c db r t k l =
    let u = input_of reg_token (config_payload parse_url detail c) in
    let found = update_runner-find_runner w name name u db r t k l in
    (updated u r, rw (==_refl name) at found, updated-IsKept parse_url detail c reg_token r)
