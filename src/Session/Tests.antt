-- ===== src/Session/Tests.antt =====
-- Runs of web/src/App.tsx and web/src/pages/Callback.tsx on concrete inputs.
use github_action_runners_mu.Api.Client.{
  Reason, logout, network_error, rejected, Request, Fetched, Exchanged, exchange_code, parsed,
  unparsable, response,
}
use github_action_runners_mu.Session.{
  handle_logout, is_logged_in_to, redirect_uri, handle_login, host_buttons, require_auth, is_admin,
  callback_effect, callback_view, sent_home,
}
use github_action_runners_mu.Prelude.{◌≡◌, refl, true, false, none, some, [], ◌∷◌, text_dec}
use github_action_runners_mu.Prelude.Text.{split}
use github_action_runners_mu.Prelude.Text.Uri.{nth, escape, escape_code, encode_uri_component}
use github_action_runners_mu.Browser.Effects.{Toast}
use github_action_runners_mu.Api.Types.{AuthStatus}
use github_action_runners_mu.Session.Laws.{LeavesIfSignedIn, callback_effect_lem}
use github_action_runners_mu.Session.Query.{handle_login-parameters}
use github_action_runners_mu.Overview.{can_edit}

run : Unit {0}
unfolding is_logged_in_to redirect_uri handle_login host_buttons require_auth is_admin
    callback_effect callback_view encode_uri_component escape_code escape nth can_edit text_dec
    exchange_code
run = tt

abbrev github : AuthStatus
github = record { host = "github.com"; logged_in = true; is_admin = false }

abbrev ghe : AuthStatus
ghe = record { host = "ghe.acme.org"; logged_in = false; is_admin = false }

-- The exchange of a code works.
abbrev exchanges : Request → Fetched Exchanged
exchanges q = response (record {
  is_ok = true;
  json = parsed (record { access_token = "gho_1"; host = "github.com" });
  error_json = unparsable "no error";
})

session_test :
    (is_logged_in_to (some (github ∷ ghe ∷ [])) "ghe.acme.org" ≡ false)
    × (require_auth false (some (ghe ∷ []))
        ≡ sent_home (Toast.error "Sign in required to access that page"))
    × (handle_login "http://mux" "github.com" "Iv1"
        ≡ "https://github.com/login/oauth/authorize?client_id=Iv1&redirect_uri=http%3A%2F%2Fmux%2Fcallback%3Fhost%3Dgithub.com&scope=repo%20admin:org")
    × (callback_effect exchanges (some "") (some "github.com")
        ≡ (some "Missing code or host parameter in callback URL.", none))
unfolding run
session_test = (refl, refl, refl, refl)

callback_effect_lem_example :
    LeavesIfSignedIn exchanges
      (some "c0de")
      (some "github.com")
      (callback_effect exchanges (some "c0de") (some "github.com"))
callback_effect_lem_example = callback_effect_lem exchanges (some "c0de") (some "github.com")

handle_login-parameters_example :
    split b'&' (handle_login "http://mux" "github.com" "Iv1")
    ≡ "https://github.com/login/oauth/authorize?client_id=Iv1"
      ∷ "redirect_uri=http%3A%2F%2Fmux%2Fcallback%3Fhost%3Dgithub.com" ∷ "scope=repo%20admin:org"
      ∷ []
unfolding run
handle_login-parameters_example = handle_login-parameters "http://mux" "github.com" "Iv1" refl refl

buttons_test :
    (host_buttons (some (record { host = "github.com"; client_id = "Iv1" } ∷ [])) none
      ≡ some (("github.com", false) ∷ []))
    × (is_admin (some (github ∷ [])) ≡ false)
    × (callback_view (some "") ≡ none)
    × (handle_logout (λ q. network_error "offline") "github.com"
        ≡ rejected (Reason.error "offline" none))
unfolding run handle_logout logout
buttons_test = (refl, refl, refl, refl)
