-- ===== src/Server/Limits.antt =====
-- The limits of the workers: pkg/dashboard/handlers_settings.go, and NewApp of app.go, which reads
-- them when the program starts. `itoa` and `atoi` are Go's strconv.Itoa and strconv.Atoi.
use github_action_runners_mu.Prelude.{
  refl, sym, ap, ◌∙◌, inl, inr, text_dec, ◌==◌, Bool-cases, ℕ, String, ◌≡◌, ◌↔◌, Bool, true, false,
  not, Option, none, some, leb, if◌then◌else◌,
}
use github_action_runners_mu.Prelude.Dict.{lookup-store, lookup-store_same, Dict, lookup, store}
use github_action_runners_mu.Prelude.Int.{ℤ, is_pos, pos, negsuc}
use github_action_runners_mu.Pool.{Orchestrator, broadcast, update_settings}
use mathlib.Core.Bool.{false≢true}

-- strconv.Atoi of a setting, where a missing or unreadable one is 0
abbrev number_of : Option ℤ → ℤ
number_of none = pos 0
number_of (some n) = n

abbrev read : (String → Option ℤ) → Option String → Option ℤ
read atoi none = none
read atoi (some s) = atoi s

abbrev is_negative : ℤ → Bool
is_negative (pos n) = false
is_negative (negsuc n) = true

-- getSettings
unfoldable pub get_settings : (String → Option ℤ) → Dict String → ℤ × ℤ
unfolding lookup
get_settings atoi settings = (
  number_of (read atoi (lookup "max_workers" settings)),
  number_of (read atoi (lookup "warm_workers" settings)),
)

-- The settings that updateSettings stores
unfoldable pub upsert_settings : (ℤ → String) → ℤ → ℤ → Dict String → Dict String
unfolding store
upsert_settings itoa max_workers warm_workers settings =
    let with_max =
      if is_pos max_workers then store "max_workers" (itoa max_workers) settings else settings in
    if not (is_negative warm_workers)
    then store "warm_workers" (itoa warm_workers) with_max
    else with_max

-- updateSettings, where no payload is one that cannot be read, and a key that the payload leaves out
-- counts 0: the status, the stored settings, and the orchestrator
unfoldable pub handle_update_settings :
    (ℤ → String) → Option (Dict ℤ) → Dict String → Orchestrator → ℕ × Dict String × Orchestrator
unfolding upsert_settings update_settings lookup
handle_update_settings itoa none settings o = (400, settings, o)
handle_update_settings itoa (some payload) settings o =
    let max_workers = number_of (lookup "max_workers" payload) in
    let warm_workers = number_of (lookup "warm_workers" payload) in
    (
      200,
      upsert_settings itoa max_workers warm_workers settings,
      update_settings max_workers warm_workers o,
    )

abbrev pub default_max_workers : ℤ
default_max_workers = pos 5

abbrev pub le : ℤ → ℤ → Bool
le (pos m) (pos n) = leb m n
le (pos m) (negsuc n) = false
le (negsuc m) (pos n) = true
le (negsuc m) (negsuc n) = leb n m

abbrev max_or_default : Option ℤ → ℤ
max_or_default none = default_max_workers
max_or_default (some n) = if is_pos n then n else default_max_workers

abbrev warm_or_none : Option ℤ → ℤ
warm_or_none none = pos 0
warm_or_none (some n) = if is_negative n then pos 0 else n

-- NewApp: the limits that the orchestrator starts with
unfoldable pub start_limits : (String → Option ℤ) → Dict String → ℤ × ℤ
unfolding lookup
start_limits atoi settings =
    let max_workers = max_or_default (read atoi (lookup "max_workers" settings)) in
    let warm_workers = warm_or_none (read atoi (lookup "warm_workers" settings)) in
    (max_workers, if le warm_workers max_workers then warm_workers else max_workers)

other_key : ("warm_workers" == "max_workers") ≡ false
unfolding text_dec
other_key = refl

lookup_other :
    (v : String) (m : Dict String)
    → lookup "max_workers" (store "warm_workers" v m) ≡ lookup "max_workers" m
lookup_other v m = rw (lookup-store "max_workers" "warm_workers" v m, other_key) refl

get_upserted :
    (itoa : ℤ → String) (atoi : String → Option ℤ) (m w : ℤ) (stored : Dict String)
    → ((n : ℤ) → atoi (itoa n) ≡ some n)
    → is_negative w ≡ false
    → get_settings atoi (upsert_settings itoa m w stored)
      ≡ ((if is_pos m then m else (get_settings atoi stored).0), w)
unfolding get_settings upsert_settings
get_upserted itoa atoi m w stored h n = elim (Bool-cases (is_pos m)) [
  | inl y ↦
      rw
        (
          y,
          n,
          upsert_settings,
          get_settings,
          lookup_other (itoa w) (store "max_workers" (itoa m) stored),
          lookup-store_same "max_workers" (itoa m) stored,
          lookup-store_same "warm_workers" (itoa w) (store "max_workers" (itoa m) stored),
          h m,
          h w,
        )
        refl
  | inr d ↦
      rw
        (
          d,
          n,
          upsert_settings,
          get_settings,
          lookup_other (itoa w) stored,
          lookup-store_same "warm_workers" (itoa w) stored,
          h w,
        )
        refl
]

-- The settings stored and shown after an update are the limits in force exactly if a positive
-- maximum is sent, where a positive maximum was stored before and the warm workers sent are not
-- negative.
pub handle_update_settings_iff :
    (itoa : ℤ → String) (atoi : String → Option ℤ) (payload : Dict ℤ) (settings : Dict String)
    (o : Orchestrator)
    → ((n : ℤ) → atoi (itoa n) ≡ some n)
    → is_pos (get_settings atoi settings).0 ≡ true
    → is_negative (number_of (lookup "warm_workers" payload)) ≡ false
    → let (status, stored, o') = handle_update_settings itoa (some payload) settings o in
      (get_settings atoi stored ≡ (o'.max_workers, o'.warm_workers_config))
      ↔ (is_pos (number_of (lookup "max_workers" payload)) ≡ true)
unfolding handle_update_settings update_settings broadcast
handle_update_settings_iff itoa atoi payload settings o h p n =
    let m : ℤ = number_of (lookup "max_workers" payload) in
    let w : ℤ = number_of (lookup "warm_workers" payload) in
    let e = get_upserted itoa atoi m w settings h n in
    elim (Bool-cases (is_pos m)) [
      | inl y ↦ ((λ _. y), (λ _. rw (e, y) refl))
      | inr d ↦ (
        (λ same. absurd (false≢true (sym d ∙ ap is_pos (ap (λ x. x.0) (sym same ∙ e)) ∙ rw d p))),
        (λ y. absurd (false≢true (sym d ∙ y))),
      )
    ]

-- A positive maximum with at most as many warm workers survives a restart: the program starts with
-- the limits that were sent.
start_limits-upsert_settings :
    (itoa : ℤ → String) (atoi : String → Option ℤ) (m w : ℤ) (stored : Dict String)
    → ((n : ℤ) → atoi (itoa n) ≡ some n)
    → is_pos m ≡ true
    → is_negative w ≡ false
    → le w m ≡ true
    → start_limits atoi (upsert_settings itoa m w stored) ≡ (m, w)
unfolding start_limits upsert_settings
start_limits-upsert_settings itoa atoi m w stored h y n l =
    rw
      (
        y,
        n,
        upsert_settings,
        start_limits,
        lookup_other (itoa w) (store "max_workers" (itoa m) stored),
        lookup-store_same "max_workers" (itoa m) stored,
        lookup-store_same "warm_workers" (itoa w) (store "max_workers" (itoa m) stored),
        h m,
        h w,
        y,
        n,
        l,
      )
      refl
