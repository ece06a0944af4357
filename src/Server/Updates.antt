-- ===== src/Server/Updates.antt =====
-- What an update of a runner stores (pkg/dashboard/service.go, UpdateRunner; db/queries).
use github_action_runners_mu.Prelude.{
  is_empty, false, none, ℕ, ◌≤◌, Bool, String, ◌≡◌, refl, inl, inr, true, some, List, [], ◌∷◌,
  arith, if◌then◌else◌, ◌==◌, Bool-cases, ==_iff, ap, ◌&&◌,
}
use github_action_runners_mu.Prelude.Int.{ℤ, is_pos, nonzero, pos, negsuc}
use github_action_runners_mu.Server.{
  coalesce, Tables, update_row, UpdateRunnerParams, find_runner, patch, same_id, patch_runners,
  find_id,
}
use github_action_runners_mu.Server.Service.{
  World, registered, UpdateRunnerInput, update_params, nothing_given, refusing, store_update,
  update_runner,
}
use github_action_runners_mu.Server.Invariant.{IsTable, numbered}
use github_action_runners_mu.Mux.{Row}
use github_action_runners_mu.Detail.Labels.{join_labels}
use mathlib.Core.Option.{some-injective}

same_id_refl : (n : ℕ) → same_id n n ≡ true
same_id_refl n = ground arith

numbered-find_runner :
    (name : String) (rs : List Row) (r : Row) → find_runner name rs ≡ some r → 1 ≤ numbered r.id rs
unfolding numbered find_runner
numbered-find_runner name [] r h = ground arith
numbered-find_runner name (q ∷ rs) r h = elim (Bool-cases (q.name == name)) [
  | inl y ↦
      let e : q ≡ r = some-injective q r (rw y at h) in rw (← e, same_id_refl q.id) (ground arith)
  | inr n ↦ ground (arith, numbered-find_runner name rs r (rw n at h))
]

find_id-find_runner :
    (name : String) (rs : List Row) (r : Row)
    → numbered r.id rs ≤ 1
    → find_runner name rs ≡ some r
    → find_id r.id rs ≡ some r
unfolding numbered find_runner find_id
find_id-find_runner name [] r u h = ground arith
find_id-find_runner name (q ∷ rs) r u h = elim (Bool-cases (q.name == name)) [
  | inl y ↦ let e : q ≡ r = some-injective q r (rw y at h) in rw (← e, same_id_refl q.id) refl
  | inr n ↦
      let k : find_runner name rs ≡ some r = rw n at h in
      ground (arith, u, numbered-find_runner name rs r k, find_id-find_runner name rs r)
]

patch_absent :
    (u : UpdateRunnerParams) (rs : List Row) → numbered u.id rs ≡ 0 → patch_runners u rs ≡ rs
unfolding numbered patch_runners
patch_absent u [] h = refl
patch_absent u (q ∷ rs) h = ground (arith, patch_absent u rs)

find_runner-patch_runners :
    (u : UpdateRunnerParams) (name j : String) (rs : List Row) (r : Row)
    → u.id ≡ r.id
    → numbered r.id rs ≤ 1
    → find_runner name rs ≡ some r
    → find_runner j (patch_runners u rs)
      ≡ (if name == j then some (patch u r) else find_runner j rs)
unfolding numbered patch_runners find_runner patch
find_runner-patch_runners u name j [] r s n h = ground arith
find_runner-patch_runners u name j (q ∷ rs) r s n h = elim (Bool-cases (q.name == name)) [
  | inl y ↦
      let e : q ≡ r = some-injective q r (rw y at h) in
      let i : q.id ≡ r.id = ap (λ x. x.id) e in
      let t : same_id q.id u.id ≡ true = ground (arith, s, i) in
      let rest : patch_runners u rs ≡ rs = patch_absent u rs (ground (arith, n, s, i)) in
      rw (t, rest, ← e, ← (==_iff q.name name).0 y) (ground arith)
  | inr d ↦
      let k : find_runner name rs ≡ some r = rw d at h in
      let f : same_id q.id u.id ≡ false = ground (arith, s, n, numbered-find_runner name rs r k) in
      rw f (ground (arith, d, n, find_runner-patch_runners u name j rs r s (ground (arith, n)) k))
]

not_pos : (n : ℤ) → nonzero n ≡ false → is_pos n ≡ false
not_pos (pos n) h = ground arith
not_pos (negsuc n) h = refl

-- The row that an update has to leave: each field as it was given, or as it was.
abbrev pub updated : UpdateRunnerInput → Row → Row
updated input r = record r {
  pat = if input.pat == "" then r.pat else input.pat;
  max_runners = if is_pos input.max_runners then input.max_runners else r.max_runners;
  labels = if is_empty input.labels then r.labels else join_labels input.labels;
  runner_group = if input.runner_group == "" then r.runner_group else input.runner_group;
}

coalesce-if {ℓ} :
    {A : Type ℓ} (b : Bool) (x y : A)
    → coalesce (if b then none else some x) y ≡ (if b then y else x)
coalesce-if true x y = refl
coalesce-if false x y = refl

coalesce-if_some {ℓ} :
    {A : Type ℓ} (b : Bool) (x y : A)
    → coalesce (if b then some x else none) y ≡ (if b then x else y)
coalesce-if_some true x y = refl
coalesce-if_some false x y = refl

patch-updated :
    (input : UpdateRunnerInput) (r : Row) → patch (update_params r.id input) r ≡ updated input r
unfolding patch update_params
patch-updated input r =
    rw
      (
        coalesce-if (input.pat == "") input.pat r.pat,
        coalesce-if_some (is_pos input.max_runners) input.max_runners r.max_runners,
        coalesce-if (is_empty input.labels) (join_labels input.labels) r.labels,
        coalesce-if (input.runner_group == "") input.runner_group r.runner_group,
      )
      refl

-- Without anything given, the parameters change no row.
patch-update_params :
    (input : UpdateRunnerInput) (r : Row)
    → nothing_given input ≡ true
    → patch (update_params r.id input) r ≡ r
unfolding nothing_given patch update_params
patch-update_params input r h =
    let a : (input.pat == "") ≡ true = ground (arith, h) in
    let b : is_pos input.max_runners ≡ false = not_pos input.max_runners (ground (arith, h)) in
    let c : (input.runner_group == "") ≡ true = ground (arith, h) in
    let d : is_empty input.labels ≡ true = ground (arith, h) in rw (a, b, c, d) refl

-- An update of a runner that has no live process stores each of token, group, maximum and labels
-- that is given (not empty, or positive) and keeps the other fields, whether or not the start
-- succeeds afterwards, and the row of every other name stays. The tables have unique names and
-- identifiers.
pub update_runner-find_runner :
    (w : World) (name j : String) (input : UpdateRunnerInput) (db : Tables) (r : Row)
    → IsTable db
    → find_runner name db.runners ≡ some r
    → refusing (w.live name) ≡ none
    → find_runner j (update_runner w name input db).1.runners
      ≡ (if name == j then some (updated input r) else find_runner j db.runners)
unfolding update_runner store_update update_row update_params
update_runner-find_runner w name j input db r (n, i) k l =
    rw (← patch-updated input r)
      let one : numbered r.id db.runners ≤ 1 = ground (arith, i r.id) in
        elim (Bool-cases (registered w r && nothing_given input)) [
          | inl y ↦
              let se : store_update w r input db ≡ some (r, db) = rw (y, store_update) refl in
              let p : patch (update_params r.id input) r ≡ r =
                patch-update_params input r (ground (arith, y)) in
              rw (k, l, se, p, update_runner)
                (elim (Bool-cases (name == j)) [
                  | inl e ↦ rw (e, ← (==_iff name j).0 e) k
                  | inr e ↦ rw e refl
                ])
          | inr d ↦
              let u : UpdateRunnerParams = update_params r.id input in
              let se : store_update w r input db
                  ≡ some (patch u r, record db { runners = patch_runners u db.runners }) =
                rw (d, find_id-find_runner name db.runners r one k, store_update, update_row)
                  refl in
              rw (k, l, se, update_runner)
                (find_runner-patch_runners u name j db.runners r refl one k)
        ]
