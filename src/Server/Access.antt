-- ===== src/Server/Access.antt =====
-- Who may do what (config/auth.go, pkg/dashboard/api.go, handlers_auth.go, and checkCanManage of
-- handlers_runner.go). Parameters: what GitHub answers, and ParseRepoURL of pkg/github.
pub mod Cached
pub mod Permission
use github_action_runners_mu.Prelude.{
  String, ◌<>◌, Bool, true, false, ◌&&◌, Option, none, some, List, if◌then◌else◌, ◌==◌, any,
  is_empty,
}
use github_action_runners_mu.Prelude.Text.{code_is}
use github_action_runners_mu.Prelude.Dict.{Dict, lookup, store}
use Prim.Native.String.{[], ◌∷◌, char_at}
use mathlib.Core.List

pub record OAuthApp : Type 0 where
  pub host : String
  pub client_id : String

pub record AdminEntry : Type 0 where
  pub host : String
  pub username : String

pub record AuthConfig : Type 0 where
  pub oauth_apps : List OAuthApp
  pub admins : List AdminEntry

unfoldable pub is_admin : AuthConfig → String → String → Bool
is_admin cfg username host =
    any (λ (a : AdminEntry). a.host == host && a.username == username) cfg.admins

-- `strings.ReplaceAll(s, ".", "_")`
unfoldable pub underscored : String → String
underscored [] = ""
underscored (c ∷ s) = (if code_is b'.' c then char_at "_" 0 else c) ∷ underscored s

unfoldable pub cookie_name_for_host : String → String
unfolding underscored
cookie_name_for_host host = "gh_token_" <> underscored host

-- github.RepoInfo
pub record RepoInfo : Type 0 where
  pub host : String
  pub owner : String
  pub repo : String

-- GetAuthenticatedUser(host, token), CheckAdminAccess(repository, username, token) and
-- GetRegistrationToken(repository, token), where `none` is an error
pub record Github : Type 0 where
  pub parse_repo_url : String → Option RepoInfo
  pub user : String → String → Option String
  pub admin_access : RepoInfo → String → String → Option Bool
  pub registration_token : RepoInfo → String → Option String

-- getOrCreateUsername, with the cache of usernames by tokens; that its entries expire is left out.
abbrev remembered : String → Option String → Dict String → Option String × Dict String
remembered token none cache = (none, cache)
remembered token (some username) cache = (some username, store token username cache)

unfoldable pub get_or_create_username :
    Github → String → String → Dict String → Option String × Dict String
unfolding lookup store
get_or_create_username gh host token cache = elim (lookup token cache) [
  | some username ↦ (some username, cache)
  | none ↦ remembered token (gh.user host token) cache
]

-- The cookie of a host, if it has a value: the empty one counts as none.
unfoldable pub oauth_token_for_host : Dict String → String → Option String
unfolding cookie_name_for_host lookup
oauth_token_for_host cookies host = elim (lookup (cookie_name_for_host host) cookies) [
  | none ↦ none
  | some token ↦ if token == "" then none else some token
]

abbrev add_user : String → Option String → Dict String → Dict String
add_user host none users = users
add_user host (some username) users = store host username users

-- The loop of AuthMiddleware: whether the user is logged in, the usernames by hosts, and the cache.
unfoldable pub collect :
    Github
    → Dict String
    → List OAuthApp
    → Bool
    → Dict String
    → Dict String
    → Bool × Dict String × Dict String
unfolding oauth_token_for_host get_or_create_username
collect gh cookies List.[] logged_in users cache = (logged_in, users, cache)
collect gh cookies (List.◌∷◌ app apps) logged_in users cache =
    elim (oauth_token_for_host cookies app.host) [
      | none ↦ collect gh cookies apps logged_in users cache
      | some token ↦
          let (name, cache') = get_or_create_username gh app.host token cache in
          collect gh cookies apps true (add_user app.host name users) cache'
    ]

-- What AuthMiddleware makes of a request: it is refused, or goes on with the users of the context,
-- where `none` is no authentication.
pub data Passed : Type 0 where
  unauthorized forbidden : Passed
  passed : Option (Dict String) → Passed

abbrev let_in : Bool → Dict String → Passed
let_in logged_in users = if logged_in then passed (some users) else unauthorized

unfoldable pub auth_middleware :
    Github → Option AuthConfig → Dict String → Dict String → Passed × Dict String
unfolding collect
auth_middleware gh none cookies cache = (passed none, cache)
auth_middleware gh (some cfg) cookies cache =
    if is_empty cfg.oauth_apps
    then (passed none, cache)
    else let r = collect gh cookies cfg.oauth_apps false List.[] cache in (let_in r.0 r.1, r.2)

unfoldable pub is_admin_from_context : Option AuthConfig → Dict String → Bool
unfolding is_admin
is_admin_from_context none users = false
is_admin_from_context (some cfg) users = any (λ (u : String × String). is_admin cfg u.1 u.0) users

-- What AdminMiddleware adds.
unfoldable pub admin_only : Option AuthConfig → Passed → Passed
unfolding is_admin_from_context
admin_only cfg (passed (some users)) =
    if is_admin_from_context cfg users then passed (some users) else forbidden
admin_only cfg p = p

abbrev granted : Option Bool → Bool
granted none = false
granted (some b) = b

-- checkCanManage
unfoldable pub check_can_manage :
    Github → Option AuthConfig → Dict String → Option (Dict String) → String → Bool
unfolding is_admin_from_context oauth_token_for_host lookup
check_can_manage gh cfg cookies none url = true
check_can_manage gh cfg cookies (some users) url =
    if is_admin_from_context cfg users then true else elim (gh.parse_repo_url url) [
      | none ↦ false
      | some info ↦ elim (lookup info.host users) [
        | none ↦ false
        | some username ↦ elim (oauth_token_for_host cookies info.host) [
          | none ↦ false
          | some token ↦ granted (gh.admin_access info username token)
        ]
      ]
    ]
