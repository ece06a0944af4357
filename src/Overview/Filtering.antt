-- ===== src/Overview/Filtering.antt =====
-- Which runners the overview lists (web/src/pages/Overview.tsx).
use github_action_runners_mu.Prelude.{
  Char, String, ◌<>◌, Bool, true, ◌&&◌, ◌||◌, not, List, [], ◌∷◌, Option, some, filter, truthy, ◌≡◌,
  ◌≢◌, ◌↔◌, refl, sym, ap, ◌∙◌, arith, Bool-cases, Option-cases, inl, inr, filter_congr,
}
use github_action_runners_mu.Prelude.Text.{to_lower_case, includes, trim}
use github_action_runners_mu.Prelude.Text.Search.{includes_iff}
use github_action_runners_mu.Api.Types.{RunnerStatus}
use github_action_runners_mu.Browser.Url.{Url, path_parts}
use github_action_runners_mu.Overview.{
  GroupBy, repo, two_parts, is_repo_group, is_repo_level, filtered_runners, after_repo,
}
use mathlib.Core.Bool.{false≢true}

filter-filter {ℓ} :
    {A : Type ℓ} (p q : A → Bool) (xs : List A)
    → filter p (filter q xs) ≡ filter (λ x. q x && p x) xs
filter-filter p q [] = refl
filter-filter p q (x ∷ xs) = ground (arith, filter-filter p q xs)

filter_all {ℓ} : {A : Type ℓ} (xs : List A) → filter (λ _. true) xs ≡ xs
filter_all [] = refl
filter_all (x ∷ xs) = rw (filter_all xs)

after_repo_lem :
    (parse_url : String → Option Url) (group_by : GroupBy) (runners : List RunnerStatus)
    → after_repo parse_url group_by runners
      ≡ filter (λ r. not (is_repo_group group_by) || is_repo_level parse_url r.url) runners
after_repo_lem parse_url group_by runners = elim (Bool-cases (is_repo_group group_by)) [
  | inl e ↦ rw e (filter_congr _ _ runners (λ r. refl))
  | inr e ↦ rw e (sym (filter_all runners))
]

-- The two tests of the page in one.
abbrev pub is_listed :
    (String → Option Url) → (Char → String) → String → GroupBy → RunnerStatus → Bool
is_listed parse_url lower search_query group_by r =
    (not (is_repo_group group_by) || is_repo_level parse_url r.url)
    && (not (truthy (trim search_query))
        || includes (to_lower_case lower r.url) (to_lower_case lower search_query))

pub filtered_runners_lem :
    (parse_url : String → Option Url) (lower : Char → String) (runners : List RunnerStatus)
    (search_query : String) (group_by : GroupBy)
    → filtered_runners parse_url lower (some runners) search_query group_by
      ≡ filter (is_listed parse_url lower search_query group_by) runners
unfolding filtered_runners
filtered_runners_lem parse_url lower runners search_query group_by =
    let searched = λ (r : RunnerStatus).
      includes (to_lower_case lower r.url) (to_lower_case lower search_query) in
    let in_view =
      λ (r : RunnerStatus). not (is_repo_group group_by) || is_repo_level parse_url r.url in
    let listed = is_listed parse_url lower search_query group_by in
    elim (Bool-cases (truthy (trim search_query))) [
      | inl t ↦ rw t (
          ap (filter searched) (after_repo_lem parse_url group_by runners)
          ∙ filter-filter searched in_view runners
          ∙ filter_congr (λ r. in_view r && searched r) listed runners (λ r. ground arith))
      | inr t ↦ rw t (
          after_repo_lem parse_url group_by runners
          ∙ filter_congr in_view listed runners (λ r. ground arith))
    ]

-- A URL of a repository: its path has at least two parts.
pub record IsRepoUrl (parse_url : String → Option Url) (url : String) : Type 0 where
  pub parsed : Url
  pub owner : String
  pub repo : String
  pub rest : List String
  pub parses : parse_url url ≡ some parsed
  pub parts : path_parts parsed ≡ owner ∷ repo ∷ rest

-- What has to be listed: the URL is that of a repository if the page groups by repository, and holds
-- the query, in any case of letters, if the query is not blank.
pub record IsListed (parse_url : String → Option Url) (lower : Char → String)
    (search_query : String) (group_by : GroupBy) (r : RunnerStatus) : Type 0 where
  pub in_view : (group_by ≡ repo) → IsRepoUrl parse_url r.url
  pub found :
      (trim search_query ≢ "")
      → (before after : String) × (to_lower_case lower r.url
          ≡ before <> (to_lower_case lower search_query <> after))

two_parts-IsRepoUrl :
    (parse_url : String → Option Url) (url : String) (u : Url) (parts : List String)
    → parse_url url ≡ some u
    → path_parts u ≡ parts
    → two_parts parts ≡ true
    → IsRepoUrl parse_url url
two_parts-IsRepoUrl parse_url url u [] k e h = absurd (false≢true h)
two_parts-IsRepoUrl parse_url url u (p ∷ []) k e h = absurd (false≢true h)
two_parts-IsRepoUrl parse_url url u (p ∷ q ∷ ps) k e h = record {
  parsed = u;
  owner = p;
  repo = q;
  rest = ps;
  parses = k;
  parts = e;
}

is_repo_level_iff :
    (parse_url : String → Option Url) (url : String)
    → (is_repo_level parse_url url ≡ true) ↔ IsRepoUrl parse_url url
unfolding is_repo_level
is_repo_level_iff parse_url url = (
  (λ h. elim (Option-cases (parse_url url)) [
    | inl n ↦ absurd (false≢true (rw (n, is_repo_level) at h))
    | inr (u, k) ↦
        two_parts-IsRepoUrl parse_url url u (path_parts u) k refl (rw (k, is_repo_level) at h)
  ]),
  (λ (r : IsRepoUrl parse_url url). rw (r.parses, is_repo_level, r.parts) refl),
)

is_repo_group_iff : (g : GroupBy) → (is_repo_group g ≡ true) ↔ (g ≡ repo)
is_repo_group_iff g = ground arith

truthy_iff : (s : String) → (truthy s ≡ true) ↔ (s ≢ "")
truthy_iff s = ground arith

in_view_iff :
    (parse_url : String → Option Url) (g : GroupBy) (url : String)
    → ((not (is_repo_group g) || is_repo_level parse_url url) ≡ true)
      ↔ (g ≡ repo → IsRepoUrl parse_url url)
in_view_iff parse_url g url = elim (Bool-cases (is_repo_group g)) [
  | inl y ↦ rw y (
    (λ h _. (is_repo_level_iff parse_url url).0 h),
    (λ k. (is_repo_level_iff parse_url url).1 (k ((is_repo_group_iff g).0 y))),
  )
  | inr n ↦ rw n ((λ _ e. absurd (false≢true (sym n ∙ (is_repo_group_iff g).1 e))), (λ _. refl))
]

found_iff :
    (search text query : String)
    → ((not (truthy search) || includes text query) ≡ true)
      ↔ (search ≢ "" → (before after : String) × (text ≡ before <> (query <> after)))
found_iff search text query = elim (Bool-cases (truthy search)) [
  | inl y ↦ rw y (
    (λ h _. (includes_iff text query).0 h),
    (λ k. (includes_iff text query).1 (k ((truthy_iff search).0 y))),
  )
  | inr n ↦ rw n ((λ _ e. absurd (false≢true (sym n ∙ (truthy_iff search).1 e))), (λ _. refl))
]

is_listed_iff :
    (parse_url : String → Option Url) (lower : Char → String) (search_query : String)
    (group_by : GroupBy) (r : RunnerStatus)
    → (is_listed parse_url lower search_query group_by r ≡ true)
      ↔ IsListed parse_url lower search_query group_by r
is_listed_iff parse_url lower search_query group_by r =
    let (view, of_view) = in_view_iff parse_url group_by r.url in
    let (found, of_found) =
      found_iff (trim search_query) (to_lower_case lower r.url)
        (to_lower_case lower search_query) in
    (
      (λ h. record { in_view = view (ground (arith, h)); found = found (ground (arith, h)) }),
      (λ (l : IsListed parse_url lower search_query group_by r).
          let a = of_view l.in_view in let b = of_found l.found in rw (a, b) refl),
    )

-- The overview lists, in the order in which they were loaded, exactly the runners whose URL is that
-- of a repository if the page groups by repository, and holds the query, in any case of letters, if
-- the query is not blank.
pub filtered_runners-IsListed :
    (parse_url : String → Option Url) (lower : Char → String) (runners : List RunnerStatus)
    (search_query : String) (group_by : GroupBy)
    → (filtered_runners parse_url lower (some runners) search_query group_by
        ≡ filter (is_listed parse_url lower search_query group_by) runners)
      × ((r : RunnerStatus)
          → (is_listed parse_url lower search_query group_by r ≡ true)
            ↔ IsListed parse_url lower search_query group_by r)
filtered_runners-IsListed parse_url lower runners search_query group_by = (
  filtered_runners_lem parse_url lower runners search_query group_by,
  is_listed_iff parse_url lower search_query group_by,
)
