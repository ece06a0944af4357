-- ===== src/Pool/Names.antt =====
-- The names of the worker containers (orchestrator/orchestrator.go, utils.go, allocate.go): a
-- container of a runner carries the runner in its name, and is known by it after a restart.
use github_action_runners_mu.Prelude.{
  not, ◌||◌, ◌∙◌, ap, ◌+◌, code, Bool, true, false, ℕ, zero, suc, String, ◌≡◌, ◌≢◌, refl, Option,
  none, some, ◌<>◌, if◌then◌else◌, arith,
}
use github_action_runners_mu.Prelude.Text.{starts_with, code_is}
use Prim.Native.String.{[], ◌∷◌, char_at}
use text.Mathlib.TextLemmas.{cons-append, nil-append}

abbrev pub name_prefix_warm : String
name_prefix_warm = "github-mux-warm-"

abbrev pub name_prefix_active : String
name_prefix_active = "github-mux-active-"

-- What follows a prefix.
unfoldable pub after : String → String → Option String
after s [] = some s
after [] (d ∷ p) = none
after (c ∷ s) (d ∷ p) = if code_is (code d) c then after s p else none

abbrev or_same : String → Option String → String
or_same s none = s
or_same s (some t) = t

-- `strings.TrimPrefix(s, p)`
unfoldable pub trim_prefix : String → String → String
unfolding after
trim_prefix s p = or_same s (after s p)

abbrev later : Bool → Option ℕ → Option ℕ
later here (some i) = some (suc i)
later true none = some 0
later false none = none

-- `strings.LastIndex(s, sep)` for one character, where `none` is -1.
unfoldable pub last_index : ℕ → String → Option ℕ
last_index sep [] = none
last_index sep (c ∷ s) = later (code_is sep c) (last_index sep s)

-- `s[:n]`
unfoldable pub take : ℕ → String → String
take zero s = ""
take (suc n) [] = ""
take (suc n) (c ∷ s) = c ∷ take n s

abbrev cut : Option ℕ → String → String
cut (some (suc i)) s = take (suc i) s
cut _ s = s

-- parseRunnerFromActiveName
unfoldable pub parse_runner_from_active_name : String → String
unfolding trim_prefix last_index take
parse_runner_from_active_name name =
    let s = trim_prefix name name_prefix_active in cut (last_index b'-' s) s

-- The name that AllocateWorker gives a container; `id` is from shortID.
abbrev pub active_name : String → String → String
active_name runner id = name_prefix_active <> runner <> "-" <> id

pub after_append : (p s : String) → after (p <> s) p ≡ some s
unfolding after
after_append [] s = ap some (nil-append s)
after_append (c ∷ p) s = rw (cons-append c p s) (ground (arith, after_append p s))

plus_zero : (n : ℕ) → n + 0 ≡ n
plus_zero n = omega arith

unfoldable size : String → ℕ
size [] = 0
size (c ∷ s) = suc (size s)

last_index_append :
    (sep : ℕ) (s t : String) (i : ℕ)
    → last_index sep t ≡ some i
    → last_index sep (s <> t) ≡ some (size s + i)
unfolding last_index size
last_index_append sep [] t i h =
    let e : i ≡ 0 + i = omega arith in rw (nil-append t) (h ∙ ap some e)
last_index_append sep (c ∷ s) t i h =
    let e : suc (size s + i) ≡ suc (size s) + i = omega arith in
    rw (cons-append c s t) (rw (last_index_append sep s t i h) (ap some e))

take_append : (s t : String) → take (size s) (s <> t) ≡ s
unfolding take size
take_append [] t = refl
take_append (c ∷ s) t = rw (cons-append c s t) (ap (λ r. c ∷ r) (take_append s t))

last_dash : (id : String) → last_index b'-' id ≡ none → last_index b'-' ("-" <> id) ≡ some 0
unfolding last_index
last_dash id h = rw (cons-append (char_at "-" 0) "" id, nil-append id, h) refl

-- The runner of a container is read from its name again, if the identifier has no dash and the
-- runner's name is not empty.
pub parse_runner_from_active_name-active_name :
    (runner id : String)
    → runner ≢ ""
    → last_index b'-' id ≡ none
    → parse_runner_from_active_name (active_name runner id) ≡ runner
unfolding parse_runner_from_active_name trim_prefix size
parse_runner_from_active_name-active_name [] id ne h = absurd (ne refl)
parse_runner_from_active_name-active_name (c ∷ s) id ne h =
    rw
      (
        after_append name_prefix_active ((c ∷ s) <> "-" <> id),
        last_index_append b'-' (c ∷ s) ("-" <> id) 0 (last_dash id h),
      )
      (rw (plus_zero (suc (size s))) (take_append (c ∷ s) ("-" <> id)))

-- Two texts differ at a place that both have.
abbrev pub differ : String → String → Bool
differ [] q = false
differ p [] = false
differ (c ∷ p) (d ∷ q) = not (code_is (code d) c) || differ p q

pub starts_with-append : (p s : String) → starts_with (p <> s) p ≡ true
unfolding starts_with
starts_with-append [] s = refl
starts_with-append (c ∷ p) s = rw (cons-append c p s) (ground (arith, starts_with-append p s))

pub starts_with-differ : (p s q : String) → differ p q ≡ true → starts_with (p <> s) q ≡ false
unfolding starts_with
starts_with-differ [] s q h = ground arith
starts_with-differ (c ∷ p) s [] h = ground arith
starts_with-differ (c ∷ p) s (d ∷ q) h =
    rw (cons-append c p s) (ground (arith, starts_with-differ p s q))
