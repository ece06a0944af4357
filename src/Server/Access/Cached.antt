-- ===== src/Server/Access/Cached.antt =====
-- The cache of usernames (pkg/dashboard/api.go, getOrCreateUsername) is by tokens, not by hosts.
use github_action_runners_mu.Prelude.{arith, Option, String, ◌≡◌, some, [], ◌∷◌}
use github_action_runners_mu.Server.Access.{
  AuthConfig, OAuthApp, is_admin, Github, get_or_create_username, oauth_token_for_host, collect,
  auth_middleware, is_admin_from_context, admin_only, passed,
}
use github_action_runners_mu.Prelude.Dict.{Dict, lookup, store}

-- With one token in the cookies of two hosts, the second host is never asked for the user: who is
-- called on the first host as an administrator is on the second passes as that administrator,
-- whatever the second host says of the token.
pub admin_only-auth_middleware :
    (gh : Github) (a b : OAuthApp) (token username : String) (cookies : Dict String)
    → oauth_token_for_host cookies a.host ≡ some token
    → oauth_token_for_host cookies b.host ≡ some token
    → gh.user a.host token ≡ some username
    → let cfg : Option AuthConfig = some (record {
      oauth_apps = a ∷ b ∷ [];
      admins = record { host = b.host; username = username } ∷ [];
    }) in
      admin_only cfg (auth_middleware gh cfg cookies []).0
      ≡ passed (some (store b.host username (store a.host username [])))
unfolding admin_only auth_middleware collect get_or_create_username lookup store
    is_admin_from_context is_admin
admin_only-auth_middleware gh a b token username cookies ca cb ua =
    rw (ca, cb, ua, auth_middleware, collect) (ground arith)
