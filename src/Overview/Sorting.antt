-- ===== src/Overview/Sorting.antt =====
-- Sorting the groups of the overview keeps them and orders them (web/src/pages/Overview.tsx).
use github_action_runners_mu.Prelude.{
  ◌+◌, String, Bool, true, false, ◌||◌, List, [], ◌∷◌, Option, filter, length, contains,
  if◌then◌else◌, ◌==◌, ◌≡◌, refl, sym, ap, ◌∙◌, ◌⊎◌, arith, Bool-cases, inl, inr, if_rule, All,
  All-imp,
}
use github_action_runners_mu.Api.Types.{RunnerStatus}
use github_action_runners_mu.Browser.Url.{Url}
use github_action_runners_mu.Browser.Sets.{Nodup}
use github_action_runners_mu.Overview.{
  GroupBy, Groups, get_group_key, group_from, insert_group, sort_groups, grouped_runners,
}
use github_action_runners_mu.Overview.Grouping.{
  group_at, group_keys, group_at-group_from, group_from-Nodup, total, total-group_from,
}
use mathlib.Core.Bool.{false≢true}

module _ (locale_le : String → String → Bool) where
  contains-insert_group :
      (g : String × List RunnerStatus) (groups : Groups) (k : String)
      → contains (group_keys (insert_group locale_le g groups)) k
        ≡ ((k == g.0) || contains (group_keys groups) k)
  unfolding insert_group
  contains-insert_group g [] k = refl
  contains-insert_group g (h ∷ groups) k = ground (arith, contains-insert_group g groups k)

  insert_group-Nodup :
      (g : String × List RunnerStatus) (groups : Groups)
      → contains (group_keys groups) g.0 ≡ false
      → Nodup (group_keys groups)
      → Nodup (group_keys (insert_group locale_le g groups))
  unfolding insert_group
  insert_group-Nodup g [] f n = (refl, tt)
  insert_group-Nodup g (h ∷ groups) f (fresh, n) =
      ground (arith, insert_group-Nodup g groups, contains-insert_group g groups h.0)

  group_at-insert_group :
      (g : String × List RunnerStatus) (groups : Groups) (k : String)
      → contains (group_keys groups) g.0 ≡ false
      → group_at k (insert_group locale_le g groups) ≡ (if g.0 == k then g.1 else group_at k groups)
  unfolding insert_group group_at
  group_at-insert_group g [] k f = refl
  group_at-insert_group g (h ∷ groups) k f = ground (arith, group_at-insert_group g groups k)

  contains-sort_groups :
      (groups : Groups) (k : String)
      → contains (group_keys (sort_groups locale_le groups)) k ≡ contains (group_keys groups) k
  unfolding sort_groups
  contains-sort_groups [] k = refl
  contains-sort_groups (g ∷ groups) k =
      contains-insert_group g (sort_groups locale_le groups) k
      ∙ ap (λ b. (k == g.0) || b) (contains-sort_groups groups k)

  sort_groups_keeps :
      (groups : Groups) (k : String)
      → Nodup (group_keys groups)
      → Nodup (group_keys (sort_groups locale_le groups))
        × (group_at k (sort_groups locale_le groups) ≡ group_at k groups)
  unfolding sort_groups group_at
  sort_groups_keeps [] k n = (tt, refl)
  sort_groups_keeps (g ∷ groups) k (fresh, n) =
      let (n', same) = sort_groups_keeps groups k n in
      let fresh' = contains-sort_groups groups g.0 ∙ fresh in
      (
        insert_group-Nodup g (sort_groups locale_le groups) fresh' n',
        group_at-insert_group g (sort_groups locale_le groups) k fresh' ∙ rw same,
      )

  total-insert_group :
      (g : String × List RunnerStatus) (groups : Groups)
      → total (insert_group locale_le g groups) ≡ length g.1 + total groups
  unfolding insert_group
  total-insert_group g [] = refl
  total-insert_group g (h ∷ groups) = ground (arith, total-insert_group g groups)

  total-sort_groups : (groups : Groups) → total (sort_groups locale_le groups) ≡ total groups
  unfolding sort_groups
  total-sort_groups [] = refl
  total-sort_groups (g ∷ groups) =
      omega (arith, total-insert_group g (sort_groups locale_le groups), total-sort_groups groups)

  -- Each key stands before those that follow it.
  abbrev pub IsSorted : Groups → Type 0
  IsSorted [] = Unit
  IsSorted (g ∷ groups) =
      All (λ (h : String × List RunnerStatus). locale_le g.0 h.0 ≡ true) groups × IsSorted groups

  module _ (total_order : (a b : String) → (locale_le a b ≡ true) ⊎ (locale_le b a ≡ true))
      (transitive : (a b c : String)
        → locale_le a b ≡ true
        → locale_le b c ≡ true
        → locale_le a c ≡ true) where
    other_way : (a b : String) → locale_le a b ≡ false → locale_le b a ≡ true
    other_way a b h = elim (total_order a b) [ inl e ↦ absurd (false≢true (sym h ∙ e)) | inr e ↦ e ]

    All-insert_group :
        (a : String) (g : String × List RunnerStatus) (groups : Groups)
        → locale_le a g.0 ≡ true
        → All (λ (h : String × List RunnerStatus). locale_le a h.0 ≡ true) groups
        → All
            (λ (h : String × List RunnerStatus). locale_le a h.0 ≡ true)
            (insert_group locale_le g groups)
    unfolding insert_group
    All-insert_group a g [] p h = (p, tt)
    All-insert_group a g (h ∷ groups) p (q, qs) =
        if_rule (All (λ (h : String × List RunnerStatus). locale_le a h.0 ≡ true))
          (locale_le g.0 h.0) (λ _. (p, (q, qs))) (λ _. (q, All-insert_group a g groups p qs))

    insert_group-IsSorted :
        (g : String × List RunnerStatus) (groups : Groups)
        → IsSorted groups
        → IsSorted (insert_group locale_le g groups)
    unfolding insert_group
    insert_group-IsSorted g [] s = (tt, tt)
    insert_group-IsSorted g (h ∷ groups) (low, s) = elim (Bool-cases (locale_le g.0 h.0)) [
      | inl e ↦ rw e (
        (
          e,
          All-imp (λ (x : String × List RunnerStatus). locale_le h.0 x.0 ≡ true)
              (λ (x : String × List RunnerStatus). locale_le g.0 x.0 ≡ true) groups
              (λ x p. transitive g.0 h.0 x.0 e p) low,
        ),
        (low, s),
      )
      | inr e ↦ rw e (
        All-insert_group h.0 g groups (other_way g.0 h.0 e) low,
        insert_group-IsSorted g groups s,
      )
    ]

    sort_groups-IsSorted : (groups : Groups) → IsSorted (sort_groups locale_le groups)
    unfolding sort_groups
    sort_groups-IsSorted [] = tt
    sort_groups-IsSorted (g ∷ groups) =
        insert_group-IsSorted g (sort_groups locale_le groups) (sort_groups-IsSorted groups)

-- The groups have distinct keys, the group of a key holds the runners with that key in the order
-- of the list, and the groups together hold as many runners as the list.
pub grouped_runners_lem :
    (parse_url : String → Option Url) (locale_le : String → String → Bool) (group_by : GroupBy)
    (runners : List RunnerStatus) (k : String)
    → Nodup (group_keys (grouped_runners parse_url locale_le group_by runners))
      × (group_at k (grouped_runners parse_url locale_le group_by runners)
          ≡ filter (λ r. get_group_key parse_url r.url group_by == k) runners)
      × (total (grouped_runners parse_url locale_le group_by runners) ≡ length runners)
unfolding grouped_runners
grouped_runners_lem parse_url locale_le group_by runners k =
    let groups = group_from parse_url group_by [] runners in
    let n = group_from-Nodup parse_url group_by [] runners tt in
    let (n', same) = sort_groups_keeps locale_le groups k n in
    (
      n',
      same ∙ group_at-group_from parse_url group_by k [] runners ∙ unfold group_at in refl,
      omega (
        arith,
        total-sort_groups locale_le groups,
        total-group_from parse_url group_by [] runners,
      ),
    )

-- The groups are in the order of their keys, if the comparison of texts is total and transitive.
grouped_runners-IsSorted :
    (parse_url : String → Option Url) (locale_le : String → String → Bool) (group_by : GroupBy)
    (runners : List RunnerStatus)
    → ((a b : String) → (locale_le a b ≡ true) ⊎ (locale_le b a ≡ true))
    → ((a b c : String) → locale_le a b ≡ true → locale_le b c ≡ true → locale_le a c ≡ true)
    → IsSorted locale_le (grouped_runners parse_url locale_le group_by runners)
unfolding grouped_runners
grouped_runners-IsSorted parse_url locale_le group_by runners total_order transitive =
    sort_groups-IsSorted locale_le total_order transitive (group_from parse_url group_by [] runners)
