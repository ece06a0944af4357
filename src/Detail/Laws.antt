-- ===== src/Detail/Laws.antt =====
-- The theorems on the page of one runner (web/src/pages/RunnerDetail.tsx).
use github_action_runners_mu.Prelude.{
  ℕ, Char, map, if_rule, String, ◌≡◌, refl, ◌↔◌, ◌⊎◌, inl, inr, Bool, true, false, Option, none,
  some, List, ◌∷◌, arith, truthy, Bool-cases, Option-cases, is_empty, [], ◌≢◌,
}
use github_action_runners_mu.Prelude.Text.{code_is, cons_head, split, trim}
use github_action_runners_mu.Detail.{
  removed, scope_of_parts, name_of_parts, url_scope, scope, Config, Edit, handle_edit,
  config_payload, Effects, remove,
}
use github_action_runners_mu.Prelude.Int.{is_pos}
use github_action_runners_mu.Browser.Url.{Url, path_parts}
use github_action_runners_mu.Api.Types.{UpdateRunnerPayload, RunnerDetail}
use github_action_runners_mu.Api.Client.{
  Request, Fetched, remove_runner_request, remove_runner, response, network_error,
}
use github_action_runners_mu.Detail.Shown.{guide_scope_types, guide}
use github_action_runners_mu.AddRunner.Submit.{split_labels}
use text.Mathlib.TextEquality.{eq_iff}

-- What the two places make of a URL.
abbrev IsClass : Option String → String → Type 0
IsClass n t =
    ((n ≡ none) × (t ≡ ""))
    ⊎ (((n ≡ some "Organization") × (t ≡ "organization"))
        ⊎ ((n ≡ some "Repository") × (t ≡ "repository")))

parts-IsClass :
    (h : String) (ps : List String) → IsClass (name_of_parts ps) (scope_of_parts h ps).scope_type
parts-IsClass h [] = inl (refl, refl)
parts-IsClass h (p ∷ []) = inr (inl (refl, refl))
parts-IsClass h (p ∷ q ∷ ps) = inr (inr (refl, refl))

scope-IsClass :
    (parse_url : String → Option Url) (url : String)
    → IsClass (scope parse_url url) (url_scope parse_url url).scope_type
unfolding scope url_scope
scope-IsClass parse_url url = elim (Bool-cases (truthy url)) [
  | inr e ↦ rw e (inl (refl, refl))
  | inl e ↦ elim (Option-cases (parse_url url)) [
    | inl n ↦ rw (e, n) (inl (refl, refl))
    | inr (u, k) ↦ rw (e, k) (parts-IsClass u.host (path_parts u))
  ]
]

classes_differ :
    (◌≢◌ {A = Option String} (some "Organization") (some "Repository"))
    × (◌≢◌ {A = String} "organization" "repository")
    × (◌≢◌ {A = String} "organization" "")
    × (◌≢◌ {A = String} "repository" "")
classes_differ = ground (
  arith,
  eq_iff "organization" "repository",
  eq_iff "organization" "",
  eq_iff "repository" "",
  eq_iff "Organization" "Repository",
)

-- The two places that classify the runner's URL agree: the badge says "Organization" exactly if the
-- form's memo says "organization", and "Repository" exactly if it says "repository".
scope_agrees :
    (parse_url : String → Option Url) (url : String)
    → ((scope parse_url url ≡ some "Organization")
        ↔ ((url_scope parse_url url).scope_type ≡ "organization"))
      × ((scope parse_url url ≡ some "Repository")
          ↔ ((url_scope parse_url url).scope_type ≡ "repository"))
scope_agrees parse_url url = ground (arith, scope-IsClass parse_url url, classes_differ)

-- A response that is fine.
abbrev pub is_good : Fetched (Unit {0}) → Bool
is_good (response res) = res.is_ok
is_good (network_error m) = false

-- The removal of a runner goes to the overview exactly if the answer to its request is fine.
remove_navigates :
    (answer : Request → Fetched (Unit {0})) (name : String) (force : Bool)
    → truthy name ≡ true
    → (e : Effects) × (remove answer (some name) force ≡ some e)
      × ((e.navigation ≡ some "/") ↔ (is_good (answer (remove_runner_request name force)) ≡ true))
unfolding remove remove_runner
remove_navigates answer name force h =
    (removed name (remove_runner answer name force), rw h refl, ground arith)

cons_head-ne-nil : (c : Char) (ps : List String) → is_empty (map trim (cons_head c ps)) ≡ false
cons_head-ne-nil c [] = refl
cons_head-ne-nil c (p ∷ ps) = refl

split-ne-nil : (sep : ℕ) (s : String) → is_empty (map trim (split sep s)) ≡ false
unfolding split
split-ne-nil sep String.[] = refl
split-ne-nil sep (String.◌∷◌ c s) =
    if_rule (λ ps. is_empty (map trim ps) ≡ false) (code_is sep c) (λ _. refl)
      (λ _. cons_head-ne-nil c (split sep s))

-- What a field that is there satisfies.
abbrev Given {ℓ} : {A : Type ℓ} → (A → Type 0) → Option A → Type 0
Given P none = Unit
Given P (some a) = P a

-- The form of the fields that are sent.
record IsTelling (p : UpdateRunnerPayload) : Type 0 where
  pat : Given (λ t. truthy t ≡ true) p.pat
  max_runners : Given (λ n. is_pos n ≡ true) p.max_runners
  labels : Given (λ ls. is_empty ls ≡ false) p.labels
  runner_group : Given (λ t. truthy t ≡ true) p.runner_group

-- A token or a group that is sent is not empty, a maximum is positive, and a list of labels has an
-- entry, which may be the empty text.
config_payload-IsTelling :
    (parse_url : String → Option Url) (runner : RunnerDetail) (c : Config)
    → IsTelling (config_payload parse_url runner c)
unfolding config_payload split_labels
config_payload-IsTelling parse_url runner c = ground (arith, split-ne-nil b',' c.labels)

-- The guide that the form opens for a runner has the table for organizations exactly if the page
-- calls the runner's scope "Organization", and the table for repositories exactly if it calls it
-- "Repository".
guide_fits_scope :
    (parse_url : String → Option Url) (url : String) (c : Config)
    → let s = url_scope parse_url url in
      let g =
        guide
          (handle_edit s c Edit.open_guide).pat_guide_owner
          (guide_scope_types (handle_edit s c Edit.open_guide).pat_guide_owner s.scope_type)
          c.pat_type in
      ((g.shows_org ≡ true) ↔ (scope parse_url url ≡ some "Organization"))
      × ((g.shows_repo ≡ true) ↔ (scope parse_url url ≡ some "Repository"))
unfolding guide guide_scope_types handle_edit
guide_fits_scope parse_url url c = ground (arith, scope-IsClass parse_url url, classes_differ)
