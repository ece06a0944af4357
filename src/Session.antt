-- ===== src/Session.antt =====
-- web/src/App.tsx and web/src/pages/Callback.tsx: who is signed in, which pages are open, and how
-- one signs in and out.
pub mod Laws
pub mod Query
mod Tests
use github_action_runners_mu.Prelude.{
  String, ◌<>◌, Bool, true, false, not, ◌&&◌, ◌||◌, Option, none, some, List, ◌∷◌, map,
  if◌then◌else◌, ◌==◌, truthy, any, is_empty, [],
}
use github_action_runners_mu.Prelude.Text.Uri.{encode_uri_component}
use github_action_runners_mu.Browser.Effects.{Toast}
use github_action_runners_mu.Api.Types.{AuthHost, AuthStatus}
use github_action_runners_mu.Api.Client.{
  Request, Fetched, Reason, Settled, Exchanged, exchange_code, logout, fulfilled, rejected,
}

-- `isLoggedInTo`
unfoldable pub is_logged_in_to : Option (List AuthStatus) → String → Bool
is_logged_in_to none host = false
is_logged_in_to (some statuses) host = any (λ s. s.host == host && s.logged_in) statuses

-- The query of `authUrl`, behind the `?`.
abbrev pub auth_query : String → String → String
auth_query client_id redirect_uri =
    "client_id=" <> (client_id <> ("&redirect_uri=" <> (redirect_uri <> "&scope=repo%20admin:org")))

-- `redirectUri`
unfoldable pub redirect_uri : String → String → String
redirect_uri origin host = origin <> ("/callback?host=" <> encode_uri_component host)

-- `handleLogin`: the address that the browser goes to.
unfoldable pub handle_login : String → String → String → String
unfolding redirect_uri
handle_login origin host client_id =
    "https://"
    <> (host
        <> ("/login/oauth/authorize?"
            <> auth_query client_id (encode_uri_component (redirect_uri origin host))))

-- `handleLogout`: the keys that are loaded again and the notification, if the call does not throw.
unfoldable pub handle_logout :
    (Request → Fetched (Unit {0})) → String → Settled (List String × Toast)
handle_logout answer host = elim (logout answer (some host)) [
  | fulfilled _ ↦
      fulfilled ("auth-status" ∷ "auth-guard" ∷ [], Toast.success ("Signed out of " <> host))
  | rejected r ↦ rejected r
]

-- A button of a host: the host, and whether it also has a button to sign out.
unfoldable pub host_buttons :
    Option (List AuthHost) → Option (List AuthStatus) → Option (List (String × Bool))
unfolding is_logged_in_to
host_buttons none statuses = none
host_buttons (some hosts) statuses =
    if is_empty hosts
    then none
    else some (map (λ h. (h.host, is_logged_in_to statuses h.host)) hosts)

-- What RequireAuth makes of a page.
pub data Guarded : Type 0 where
  spinner : Guarded
  children : Guarded
  sent_home : Toast → Guarded

-- `RequireAuth`
unfoldable pub require_auth : Bool → Option (List AuthStatus) → Guarded
require_auth true statuses = spinner
require_auth false none = children
require_auth false (some statuses) =
    if is_empty statuses
    then children
    else if any (λ s. s.logged_in) statuses
    then children
    else sent_home (Toast.error "Sign in required to access that page")

-- `isAdmin`
unfoldable pub is_admin : Option (List AuthStatus) → Bool
is_admin none = false
is_admin (some statuses) = any (λ s. s.is_admin) statuses

abbrev pub given : Option String → Bool
given none = false
given (some s) = truthy s

-- The initial `error` of the page of the callback.
unfoldable pub initial_error : Option String → Option String → Option String
initial_error code host =
    if not (given code) || not (given host)
    then some "Missing code or host parameter in callback URL."
    else none

abbrev or_nothing : Option String → String
or_nothing none = ""
or_nothing (some s) = s

-- `err instanceof Error ? err.message : …`
abbrev pub exchange_message : Reason → String
exchange_message (Reason.error m runner) = m
exchange_message Reason.other = "Failed to exchange code"

abbrev pub after_exchange : Settled Exchanged → Option String × Option String
after_exchange (fulfilled _) = (none, some "/")
after_exchange (rejected r) = (some (exchange_message r), none)

-- The effect of the callback: the error afterwards, and where it navigates.
unfoldable pub callback_effect :
    (Request → Fetched Exchanged) → Option String → Option String → Option String × Option String
unfolding initial_error
callback_effect answer code host =
    if not (given code) || not (given host)
    then (initial_error code host, none)
    else after_exchange (exchange_code answer (or_nothing code) (or_nothing host))

-- What the page says: an error that is not empty, or that the sign-in is going on.
unfoldable pub callback_view : Option String → Option String
callback_view none = none
callback_view (some e) = if truthy e then some e else none
