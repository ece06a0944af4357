-- ===== src/AddRunner/Modes/Laws.antt =====
-- The theorems on the modes of the selected scopes (web/src/pages/AddRunner.tsx).
use github_action_runners_mu.Prelude.{
  ℕ, ◌+◌, String, Bool, true, false, ◌&&◌, ◌||◌, List, [], ◌∷◌, Option, none, some, length, any,
  contains, if◌then◌else◌, ◌==◌, ◌≡◌, refl, ◌⊎◌, inl, inr, arith, All, ◌≢◌, if_rule, All-append,
  filter, All-imp, Bool-cases, not, All-filter_self,
}
use github_action_runners_mu.Api.Types.{AdminRepo, RunnerStatus}
use github_action_runners_mu.Browser.Sets.{add, Nodup, contains-add, add-Nodup}
use github_action_runners_mu.AddRunner.Form.{Mode, standalone, scaleset, mode_text}
use github_action_runners_mu.AddRunner.Modes.{
  ModeMap, modes_of, add_mode, add_runners, scope_mode_map, same_repo, is_single_maximized,
  effective_mode, conflicts, submit_repos, display_mode, is_batch,
}
use text.Mathlib.TextEquality.{eq_iff}
use mathlib.Core.Path.{fun_ext}

modes_of-add_mode :
    (u v m : String) (map : ModeMap)
    → modes_of v (add_mode u m map) ≡ (if u == v then add m (modes_of u map) else modes_of v map)
unfolding modes_of add_mode
modes_of-add_mode u v m [] = refl
modes_of-add_mode u v m ((w, modes) ∷ map) = ground (arith, modes_of-add_mode u v m map)

-- Some listed runner has the URL and the mode.
abbrev pub has_runner : String → String → List RunnerStatus → Bool
has_runner url mode = any (λ r. r.url == url && r.mode == mode)

contains-add_runners :
    (map : ModeMap) (rs : List RunnerStatus) (url mode : String)
    → contains (modes_of url (add_runners map rs)) mode
      ≡ (contains (modes_of url map) mode || has_runner url mode rs)
unfolding add_runners
contains-add_runners map [] url mode = ground arith
contains-add_runners map (r ∷ rs) url mode = ground (
  arith,
  contains-add_runners (add_mode r.url r.mode map) rs url mode,
  modes_of-add_mode r.url url r.mode map,
  contains-add r.mode mode (modes_of r.url map),
)

-- The runners that the page knows; none before they are loaded.
abbrev pub loaded : Option (List RunnerStatus) → List RunnerStatus
loaded none = []
loaded (some rs) = rs

-- The map from scopes to modes holds a mode for a URL exactly if some loaded runner has both.
pub contains-scope_mode_map :
    (existing : Option (List RunnerStatus)) (url mode : String)
    → contains (modes_of url (scope_mode_map existing)) mode ≡ has_runner url mode (loaded existing)
unfolding scope_mode_map modes_of
contains-scope_mode_map none url mode = refl
contains-scope_mode_map (some rs) url mode = contains-add_runners [] rs url mode

-- The backend knows two modes.
abbrev pub IsKnown : String → Type 0
IsKnown mode = (mode ≡ "standalone") ⊎ (mode ≡ "scaleset")

abbrev pub KnownModes : List RunnerStatus → Type 0
KnownModes = All (λ r. IsKnown r.mode)

pub record IsModeSet (s : List String) : Type 0 where
  pub nodup : Nodup s
  pub known : All IsKnown s

add-IsModeSet : (m : String) (s : List String) → IsKnown m → IsModeSet s → IsModeSet (add m s)
unfolding add
add-IsModeSet m s k h = record {
  nodup = add-Nodup m s h.nodup;
  known =
      if_rule (All IsKnown) (contains s m) (λ _. h.known)
        (λ _. All-append IsKnown s (m ∷ []) h.known (k, tt));
}

add_runners-IsModeSet :
    (map : ModeMap) (rs : List RunnerStatus)
    → KnownModes rs
    → ((url : String) → IsModeSet (modes_of url map))
    → (url : String) → IsModeSet (modes_of url (add_runners map rs))
unfolding add_runners
add_runners-IsModeSet map [] k h url = h url
add_runners-IsModeSet map (r ∷ rs) (k, ks) h url =
    add_runners-IsModeSet (add_mode r.url r.mode map) rs ks
      (λ v.
        rw (modes_of-add_mode r.url v r.mode map)
          (if_rule IsModeSet (r.url == v) (λ _. add-IsModeSet r.mode _ k (h r.url)) (λ _. h v)))
      url

scope_mode_map-IsModeSet :
    (existing : Option (List RunnerStatus)) (url : String)
    → KnownModes (loaded existing)
    → IsModeSet (modes_of url (scope_mode_map existing))
unfolding scope_mode_map modes_of
scope_mode_map-IsModeSet none url k = record { nodup = tt; known = tt }
scope_mode_map-IsModeSet (some rs) url k =
    add_runners-IsModeSet [] rs k (λ _. record { nodup = tt; known = tt }) url

abbrev bit : Bool → ℕ
bit true = 1
bit false = 0

standalone-ne-scaleset : ◌≢◌ {A = String} "standalone" "scaleset"
standalone-ne-scaleset = ground (arith, eq_iff "standalone" "scaleset")

-- A set of known modes has as many members as it has modes of the two.
length_of_IsModeSet :
    (s : List String)
    → Nodup s
    → All IsKnown s
    → length s ≡ bit (contains s "standalone") + bit (contains s "scaleset")
length_of_IsModeSet [] n k = refl
length_of_IsModeSet (x ∷ s) (fresh, n) (inl e, k) =
    let f = rw e at fresh in ground (arith, e, standalone-ne-scaleset, length_of_IsModeSet s n k)
length_of_IsModeSet (x ∷ s) (fresh, n) (inr e, k) =
    let f = rw e at fresh in ground (arith, e, standalone-ne-scaleset, length_of_IsModeSet s n k)

-- The mode that a single scope is submitted with is not among its modes.
pub effective_mode_free :
    (existing : Option (List RunnerStatus)) (r : AdminRepo) (mode : Mode)
    → KnownModes (loaded existing)
    → is_single_maximized existing (r ∷ []) mode ≡ false
    → contains
        (modes_of r.url (scope_mode_map existing))
        (mode_text (effective_mode existing (r ∷ []) mode))
      ≡ false
unfolding is_single_maximized effective_mode
effective_mode_free existing r standalone k h =
    let m = scope_mode_map-IsModeSet existing r.url k in
    ground (arith, length_of_IsModeSet _ m.nodup m.known)
effective_mode_free existing r scaleset k h =
    let m = scope_mode_map-IsModeSet existing r.url k in
    ground (arith, length_of_IsModeSet _ m.nodup m.known)

same_repo_url : (a b : AdminRepo) → same_repo a b ≡ true → a.url ≡ b.url
same_repo_url a b h = ground arith

same_repo_refl : (a : AdminRepo) → same_repo a a ≡ true
same_repo_refl a = ground arith

module _ (existing : Option (List RunnerStatus)) (mode : Mode) where
  conflicts_same :
      (a b : AdminRepo)
      → same_repo a b ≡ true
      → conflicts existing mode a ≡ conflicts existing mode b
  unfolding conflicts
  conflicts_same a b h = rw (same_repo_url a b h)

  -- A scope is among the conflicting ones of a list exactly if it is listed and conflicts.
  any-filter-conflicts :
      (a : AdminRepo) (xs : List AdminRepo)
      → any (same_repo a) (filter (conflicts existing mode) xs)
        ≡ (conflicts existing mode a && any (same_repo a) xs)
  any-filter-conflicts a [] = ground arith
  any-filter-conflicts a (x ∷ xs) = elim (Bool-cases (same_repo a x)) [
    | inl same ↦ let c = conflicts_same a x same in ground (arith, any-filter-conflicts a xs)
    | inr differ ↦ ground (arith, any-filter-conflicts a xs)
  ]

  -- Filtering by the list of ignored scopes is filtering by the conflict itself.
  filter_ignored :
      (xs ys : List AdminRepo)
      → All (λ a. any (same_repo a) xs ≡ true) ys
      → filter (λ a. not (any (same_repo a) (filter (conflicts existing mode) xs))) ys
        ≡ filter (λ a. not (conflicts existing mode a)) ys
  filter_ignored xs [] h = refl
  filter_ignored xs (y ∷ ys) (m, h) =
      rw (any-filter-conflicts y xs, m, filter_ignored xs ys h) (ground arith)

any-same_repo_weaken :
    (x : AdminRepo) (xs ys : List AdminRepo)
    → All (λ a. any (same_repo a) xs ≡ true) ys
    → All (λ a. any (same_repo a) (x ∷ xs) ≡ true) ys
any-same_repo_weaken x xs ys =
    All-imp (λ a. any (same_repo a) xs ≡ true) (λ a. any (same_repo a) (x ∷ xs) ≡ true) ys
      (λ a h. ground arith)

All-any-same_repo : (xs : List AdminRepo) → All (λ a. any (same_repo a) xs ≡ true) xs
All-any-same_repo [] = tt
All-any-same_repo (x ∷ xs) =
    (rw (same_repo_refl x), any-same_repo_weaken x xs xs (All-any-same_repo xs))

conflicts-has_runner :
    (existing : Option (List RunnerStatus)) (mode : Mode)
    → conflicts existing mode ≡ (λ r. has_runner r.url (mode_text mode) (loaded existing))
unfolding conflicts
conflicts-has_runner existing mode =
    fun_ext (λ r. contains-scope_mode_map existing r.url (mode_text mode))

-- A batch submits the selected scopes that have no runner of the mode, in the order of the
-- selection; a single scope is submitted as it is.
pub submit_repos_lem :
    (existing : Option (List RunnerStatus)) (selected_repos : List AdminRepo) (mode : Mode)
    → submit_repos existing selected_repos mode ≡ (
        if is_batch selected_repos
        then filter (λ r. not (has_runner r.url (mode_text mode) (loaded existing))) selected_repos
        else selected_repos)
unfolding submit_repos
submit_repos_lem existing selected_repos mode = elim (Bool-cases (is_batch selected_repos)) [
  | inl batch ↦ rw (
    batch,
    filter_ignored existing mode selected_repos selected_repos (All-any-same_repo selected_repos),
    conflicts-has_runner existing mode,
  )
  | inr single ↦ rw single
]

single_free :
    (existing : Option (List RunnerStatus)) (selected_repos : List AdminRepo) (mode : Mode)
    → KnownModes (loaded existing)
    → is_single_maximized existing selected_repos mode ≡ false
    → is_batch selected_repos ≡ false
    → All
        (λ r.
          has_runner r.url (mode_text (display_mode existing selected_repos mode)) (loaded existing)
          ≡ false)
        (submit_repos existing selected_repos mode)
unfolding display_mode submit_repos
single_free existing [] mode k h b = tt
single_free existing (r ∷ []) mode k h b =
    (rw (← contains-scope_mode_map existing) (effective_mode_free existing r mode k h), tt)
single_free existing (r ∷ s ∷ rs) mode k h b = absurd (ground arith)

-- No scope is submitted with a mode that it already has, if the page knows only runners of the two
-- modes and a single scope is not maximized.
pub submit_repos_free :
    (existing : Option (List RunnerStatus)) (selected_repos : List AdminRepo) (mode : Mode)
    → KnownModes (loaded existing)
    → is_single_maximized existing selected_repos mode ≡ false
    → All
        (λ r.
          has_runner r.url (mode_text (display_mode existing selected_repos mode)) (loaded existing)
          ≡ false)
        (submit_repos existing selected_repos mode)
unfolding display_mode
submit_repos_free existing selected_repos mode k h = elim (Bool-cases (is_batch selected_repos)) [
  | inl batch ↦
      rw (submit_repos_lem existing selected_repos mode, batch)
        (All-imp _ _ _ (λ r e. ground arith)
          (All-filter_self (λ r. not (has_runner r.url (mode_text mode) (loaded existing)))
            selected_repos))
  | inr single ↦ single_free existing selected_repos mode k h single
]
