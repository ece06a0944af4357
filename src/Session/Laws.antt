-- ===== src/Session/Laws.antt =====
-- The theorems on web/src/App.tsx and web/src/pages/Callback.tsx.
use github_action_runners_mu.Prelude.{
  String, ◌≡◌, refl, sym, ap, ◌↔◌, true, false, ◌&&◌, Option, none, some, List, ◌∷◌, arith, ◌==◌,
  truthy, any, [], Bool, not, ◌||◌, ◌⊎◌, inl, inr, Bool-cases,
}
use github_action_runners_mu.Api.Types.{AuthStatus}
use github_action_runners_mu.Api.Client.{
  Request, Fetched, Settled, Exchanged, exchange_code, fulfilled, rejected,
}
use github_action_runners_mu.Session.{
  is_logged_in_to, require_auth, exchange_message, after_exchange, callback_effect, children, given,
  initial_error,
}
use github_action_runners_mu.Overview.{can_edit}
use mathlib.Core.Option.{none-ne-some, some-injective}
use mathlib.Core.Bool.{false≢true}

-- The guard opens a page, once its statuses are there, exactly if the overview offers the links to
-- the guarded pages for the same statuses.
require_auth_iff :
    (statuses : Option (List AuthStatus))
    → (require_auth false statuses ≡ children) ↔ (can_edit statuses ≡ true)
unfolding require_auth can_edit
require_auth_iff none = ground arith
require_auth_iff (some statuses) = ground arith

any_of_host :
    (host : String) (statuses : List AuthStatus)
    → any (λ s. s.host == host && s.logged_in) statuses ≡ true
    → any (λ s. s.logged_in) statuses ≡ true
any_of_host host [] h = h
any_of_host host (s ∷ statuses) h = ground (arith, any_of_host host statuses)

-- Who is signed in to some host, as its button says, is let through by the guard.
is_logged_in_to-require_auth :
    (statuses : Option (List AuthStatus)) (host : String)
    → is_logged_in_to statuses host ≡ true
    → require_auth false statuses ≡ children
unfolding is_logged_in_to require_auth
is_logged_in_to-require_auth none host h = refl
is_logged_in_to-require_auth (some statuses) host h = ground (arith, any_of_host host statuses)

abbrev is_fulfilled : Settled Exchanged → Bool
is_fulfilled (fulfilled x) = true
is_fulfilled (rejected r) = false

after_exchange_lem :
    (s : Settled Exchanged)
    → (((after_exchange s).1 ≡ some "/") ↔ ((x : Exchanged) × (s ≡ fulfilled x)))
      × ((after_exchange s).1 ≡ none → (m : String) × ((after_exchange s).0 ≡ some m))
after_exchange_lem (fulfilled x) =
    (((λ _. (x, refl)), (λ _. refl)), (λ e. absurd (none-ne-some _ (sym e))))
after_exchange_lem (rejected r) = (
  ((λ e. absurd (none-ne-some _ e)), (λ (x, e). absurd (false≢true (ap is_fulfilled e)))),
  (λ _. (exchange_message r, refl)),
)

-- Both parameters are there and not empty, and the exchange of the code succeeds.
pub record IsSignedIn (answer : Request → Fetched Exchanged) (code host : Option String)
    : Type 0 where
  pub code_text : String
  pub host_text : String
  pub code_given : code ≡ some code_text
  pub host_given : host ≡ some host_text
  pub code_there : truthy code_text ≡ true
  pub host_there : truthy host_text ≡ true
  pub exchanged : Exchanged
  pub done : exchange_code answer code_text host_text ≡ fulfilled exchanged

-- What the callback has to do: leave exactly for a sign-in, and show an error if it stays.
abbrev pub LeavesIfSignedIn :
    (Request → Fetched Exchanged)
    → Option String
    → Option String
    → Option String × Option String
    → Type 0
LeavesIfSignedIn answer code host effect =
    ((effect.1 ≡ some "/") ↔ IsSignedIn answer code host)
    × (effect.1 ≡ none → (m : String) × (effect.0 ≡ some m))

missing-LeavesIfSignedIn :
    (answer : Request → Fetched Exchanged) (code host : Option String)
    → (given code ≡ false) ⊎ (given host ≡ false)
    → LeavesIfSignedIn answer code host (callback_effect answer code host)
unfolding callback_effect initial_error
missing-LeavesIfSignedIn answer code host m =
    let e : (not (given code) || not (given host)) ≡ true = ground (arith, m) in
    rw (e, callback_effect)
      (
        (
          (λ k. absurd (none-ne-some _ k)),
          (λ (r : IsSignedIn answer code host). absurd (
              false≢true
                (ground (arith, m, r.code_given, r.host_given, r.code_there, r.host_there)))),
        ),
        (λ _. ("Missing code or host parameter in callback URL.", refl)),
      )

given-LeavesIfSignedIn :
    (answer : Request → Fetched Exchanged) (code host : String)
    → truthy code ≡ true
    → truthy host ≡ true
    → LeavesIfSignedIn answer
        (some code)
        (some host)
        (callback_effect answer (some code) (some host))
unfolding callback_effect
given-LeavesIfSignedIn answer code host c h =
    let ((out, back), stays) = after_exchange_lem (exchange_code answer code host) in
    rw (c, h, callback_effect)
      (
        (
          (λ e.
              let (x, k) = out e in
              record {
                code_text = code;
                host_text = host;
                code_given = refl;
                host_given = refl;
                code_there = c;
                host_there = h;
                exchanged = x;
                done = k;
              }),
          (λ (r : IsSignedIn answer (some code) (some host)). back (
            r.exchanged,
            rw (some-injective _ _ r.code_given, some-injective _ _ r.host_given) r.done,
          )),
        ),
        stays,
      )

-- The callback leaves for the overview exactly if both parameters are there and not empty and the
-- exchange of the code succeeds; if it does not leave, it has an error.
pub callback_effect_lem :
    (answer : Request → Fetched Exchanged) (code host : Option String)
    → LeavesIfSignedIn answer code host (callback_effect answer code host)
callback_effect_lem answer none host = missing-LeavesIfSignedIn answer none host (inl refl)
callback_effect_lem answer (some code) none =
    missing-LeavesIfSignedIn answer (some code) none (inr refl)
callback_effect_lem answer (some code) (some host) = elim (Bool-cases (truthy code)) [
  | inr c ↦ missing-LeavesIfSignedIn answer (some code) (some host) (inl c)
  | inl c ↦ elim (Bool-cases (truthy host)) [
    | inr h ↦ missing-LeavesIfSignedIn answer (some code) (some host) (inr h)
    | inl h ↦ given-LeavesIfSignedIn answer code host c h
  ]
]
