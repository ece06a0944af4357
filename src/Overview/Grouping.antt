-- ===== src/Overview/Grouping.antt =====
-- The groups of the overview hold every filtered runner once (web/src/pages/Overview.tsx).
use github_action_runners_mu.Prelude.{
  ℕ, ◌+◌, suc, String, Bool, ◌||◌, List, [], ◌∷◌, ◌++◌, map, Option, filter, length, length-append,
  contains, if◌then◌else◌, ◌==◌, ◌≡◌, refl, sym, arith, Bool-cases, inl, inr,
}
use mathlib.Core.List.{append_assoc, append-nil}
use github_action_runners_mu.Api.Types.{RunnerStatus}
use github_action_runners_mu.Browser.Url.{Url}
use github_action_runners_mu.Browser.Sets.{Nodup}
use github_action_runners_mu.Overview.{GroupBy, Groups, push, get_group_key, group_from}

-- The runners of a key's group.
unfoldable pub group_at : String → Groups → List RunnerStatus
group_at key [] = []
group_at key ((k, rs) ∷ groups) = if k == key then rs else group_at key groups

abbrev pub group_keys : Groups → List String
group_keys = map (λ (k, _). k)

group_at-push :
    (key k : String) (r : RunnerStatus) (groups : Groups)
    → group_at k (push key r groups)
      ≡ (if key == k then group_at k groups ++ (r ∷ []) else group_at k groups)
unfolding group_at push
group_at-push key k r [] = ground arith
group_at-push key k r ((j, rs) ∷ groups) = ground (arith, group_at-push key k r groups)

contains-push :
    (key k : String) (r : RunnerStatus) (groups : Groups)
    → contains (group_keys (push key r groups)) k ≡ (contains (group_keys groups) k || (key == k))
unfolding push
contains-push key k r [] = ground arith
contains-push key k r ((j, rs) ∷ groups) = ground (arith, contains-push key k r groups)

push-Nodup :
    (key : String) (r : RunnerStatus) (groups : Groups)
    → Nodup (group_keys groups)
    → Nodup (group_keys (push key r groups))
unfolding push
push-Nodup key r [] h = (refl, tt)
push-Nodup key r ((j, rs) ∷ groups) (fresh, h) =
    ground (arith, push-Nodup key r groups h, contains-push key j r groups)

module _ (parse_url : String → Option Url) (group_by : GroupBy) where
  abbrev pub has_group_key : String → RunnerStatus → Bool
  has_group_key k r = get_group_key parse_url r.url group_by == k

  pub group_at-group_from :
      (k : String) (groups : Groups) (rs : List RunnerStatus)
      → group_at k (group_from parse_url group_by groups rs)
        ≡ group_at k groups ++ filter (has_group_key k) rs
  unfolding group_from
  group_at-group_from k groups [] = sym (append-nil (group_at k groups))
  group_at-group_from k groups (r ∷ rs) =
      let key = get_group_key parse_url r.url group_by in
      elim (Bool-cases (key == k)) [
        | inl e ↦
            rw (group_at-group_from k (push key r groups) rs, group_at-push key k r groups, e)
              (append_assoc (group_at k groups) (r ∷ []) _)
        | inr e ↦ rw (group_at-group_from k (push key r groups) rs, group_at-push key k r groups, e)
      ]

  pub group_from-Nodup :
      (groups : Groups) (rs : List RunnerStatus)
      → Nodup (group_keys groups)
      → Nodup (group_keys (group_from parse_url group_by groups rs))
  unfolding group_from
  group_from-Nodup groups [] h = h
  group_from-Nodup groups (r ∷ rs) h =
      group_from-Nodup (push (get_group_key parse_url r.url group_by) r groups) rs
        (push-Nodup (get_group_key parse_url r.url group_by) r groups h)

-- How many runners stand in the groups.
abbrev pub total : Groups → ℕ
total [] = 0
total ((_, rs) ∷ groups) = length rs + total groups

total-push :
    (key : String) (r : RunnerStatus) (groups : Groups)
    → total (push key r groups) ≡ suc (total groups)
unfolding push
total-push key r [] = omega arith
total-push key r ((j, rs) ∷ groups) =
    ground (arith, total-push key r groups, length-append rs (r ∷ []))

pub total-group_from :
    (parse_url : String → Option Url) (group_by : GroupBy) (groups : Groups)
    (rs : List RunnerStatus)
    → total (group_from parse_url group_by groups rs) ≡ total groups + length rs
unfolding group_from
total-group_from parse_url group_by groups [] = omega arith
total-group_from parse_url group_by groups (r ∷ rs) = omega (
  arith,
  total-group_from parse_url group_by (push (get_group_key parse_url r.url group_by) r groups) rs,
  total-push (get_group_key parse_url r.url group_by) r groups,
)
