-- ===== src/Server/Access/Permission.antt =====
-- Changes need the permission that checkCanManage tests (pkg/dashboard/handlers_runner.go), but
-- creating a runner does not.
use github_action_runners_mu.Prelude.{
  ap, ◌∙◌, true, ◌==◌, text_dec, String, ◌≡◌, refl, false, Option, none, some, List, [], ◌∷◌,
}
use github_action_runners_mu.Server.Handlers.{
  Answer, is_public, created, CreatePayload, is_blank, create_params, handle_create, handle_update,
  handle_delete, Call, protected, handle, list_call, create_call, get_call, delete_call,
  update_call,
}
use github_action_runners_mu.Server.{
  CreateRunnerParams, is_mode, insert_runner, Tables, find_runner, new_row,
}
use github_action_runners_mu.Server.Service.{create_runner, World, combined, get_runner}
use github_action_runners_mu.Prelude.Dict.{Dict, lookup}
use github_action_runners_mu.Mux.{Row}
use github_action_runners_mu.Server.Access.{
  OAuthApp, AdminEntry, AuthConfig, Github, get_or_create_username, oauth_token_for_host, collect,
  auth_middleware, check_can_manage, passed,
}
use mathlib.Core.Option.{none-ne-some, some-injective}
use github_action_runners_mu.Server.Handlers.Kept.{created_tables}

-- The runner that a request changes or deletes.
abbrev pub target : Call → Option String
target (delete_call name) = some name
target (update_call name p) = some name
target call = none

protected-check_can_manage :
    (gh : Github) (cfg : Option AuthConfig) (w : World) (cookies : Dict String)
    (users : Option (Dict String)) (call : Call) (db : Tables) (name : String) (r : Row)
    → target call ≡ some name
    → find_runner name db.runners ≡ some r
    → check_can_manage gh cfg cookies users r.url ≡ false
    → (protected gh cfg w cookies (passed users) call db).1 ≡ db
unfolding protected handle_update handle_delete get_runner combined
protected-check_can_manage gh cfg w cookies users list_call db name r t f c = refl
protected-check_can_manage gh cfg w cookies users (create_call p) db name r t f c =
    absurd (none-ne-some name t)
protected-check_can_manage gh cfg w cookies users (get_call n) db name r t f c = refl
protected-check_can_manage gh cfg w cookies users (delete_call n) db name r t f c =
    let k : find_runner n db.runners ≡ some r = rw (some-injective n name t) f in
    rw (k, protected, handle_delete, get_runner, c) refl
protected-check_can_manage gh cfg w cookies users (update_call n none) db name r t f c = refl
protected-check_can_manage gh cfg w cookies users (update_call n (some p)) db name r t f c =
    let k : find_runner n db.runners ≡ some r = rw (some-injective n name t) f in
    rw (k, protected, handle_update, get_runner, c) refl

not_public : (call : Call) (name : String) → target call ≡ some name → is_public call ≡ false
not_public list_call name t = absurd (none-ne-some name t)
not_public (create_call p) name t = refl
not_public (get_call n) name t = refl
not_public (delete_call n) name t = refl
not_public (update_call n p) name t = refl

-- A request of a logged-in user to change or delete a runner that exists, without the permission to
-- manage its URL, leaves the tables as they are.
pub handle-check_can_manage :
    (gh : Github) (cfg : Option AuthConfig) (w : World) (cookies cache : Dict String)
    (users : Option (Dict String)) (call : Call) (db : Tables) (name : String) (r : Row)
    → target call ≡ some name
    → find_runner name db.runners ≡ some r
    → (auth_middleware gh cfg cookies cache).0 ≡ passed users
    → check_can_manage gh cfg cookies users r.url ≡ false
    → (handle gh cfg w cookies cache call db).1 ≡ db
unfolding handle
handle-check_can_manage gh cfg w cookies cache users call db name r t f a c =
    rw (not_public call name t, a, handle)
      (protected-check_can_manage gh cfg w cookies users call db name r t f c)

not_standalone : ("scaleset" == "standalone") ≡ false
unfolding text_dec
not_standalone = refl

not_blank : is_blank "scaleset" ≡ false
unfolding is_blank
not_blank = refl

mode_scaleset : is_mode "scaleset" ≡ true
unfolding text_dec
mode_scaleset = refl

unknown_user :
    (gh : Github) (app : OAuthApp) (admins : List AdminEntry) (cookies : Dict String)
    (token : String)
    → oauth_token_for_host cookies app.host ≡ some token
    → gh.user app.host token ≡ none
    → (auth_middleware gh (some (record { oauth_apps = app ∷ []; admins = admins })) cookies []).0
      ≡ passed (some [])
unfolding auth_middleware collect get_or_create_username lookup
unknown_user gh app admins cookies token k g =
    rw (k, auth_middleware, collect, g, get_or_create_username) refl

stored :
    (name : String) (w : World) (p : CreateRunnerParams) (token : String) (db : Tables)
    → find_runner p.name db.runners ≡ none
    → is_mode p.mode ≡ true
    → (created name (create_runner w p token db)).1.runners ≡ new_row p db.next_id ∷ db.runners
unfolding create_runner insert_runner
stored name w p token db f m =
    rw (created_tables name (create_runner w p token db), f, m, create_runner, insert_runner) refl

stored_payload :
    (w : World) (p : CreatePayload) (db : Tables)
    → find_runner p.name db.runners ≡ none
    → is_mode p.mode ≡ true
    → (created p.name (create_runner w (create_params p) "" db)).1.runners
      ≡ new_row (create_params p) db.next_id ∷ db.runners
unfolding create_params
stored_payload w p db f m = stored p.name w (create_params p) "" db f m

create_scaleset :
    (gh : Github) (w : World) (cookies : Dict String) (p : CreatePayload) (db : Tables)
    → p.mode ≡ "scaleset"
    → is_blank p.name ≡ false
    → is_blank p.url ≡ false
    → (y : Answer × Tables) → created p.name (create_runner w (create_params p) "" db) ≡ y
    → handle_create gh w cookies (some p) db ≡ y
unfolding handle_create
create_scaleset gh w cookies p db m n u y h =
    let text : (p.mode == "standalone") ≡ false = rw m not_standalone in
    let blank : is_blank p.mode ≡ false = rw m not_blank in rw (handle_create, n, u, blank, text) h

handle_passed :
    (gh : Github) (cfg : Option AuthConfig) (w : World) (cookies cache : Dict String)
    (p : CreatePayload) (db : Tables) {users : Option (Dict String)}
    → (auth_middleware gh cfg cookies cache).0 ≡ passed users
    → handle gh cfg w cookies cache (create_call (some p)) db
      ≡ handle_create gh w cookies (some p) db
unfolding handle protected
handle_passed gh cfg w cookies cache p db a = rw (a, handle) refl

-- Anyone who sends a cookie that is not empty registers a scale set runner, also if GitHub does not
-- know the token: with a new name, and a name and URL that are not blank, it is stored.
pub handle_unknown_user :
    (gh : Github) (app : OAuthApp) (admins : List AdminEntry) (w : World) (cookies : Dict String)
    (token : String) (p : CreatePayload) (db : Tables)
    → oauth_token_for_host cookies app.host ≡ some token
    → gh.user app.host token ≡ none
    → p.mode ≡ "scaleset"
    → is_blank p.name ≡ false
    → is_blank p.url ≡ false
    → find_runner p.name db.runners ≡ none
    → (handle gh
        (some (record { oauth_apps = app ∷ []; admins = admins }))
        w
        cookies
        []
        (create_call (some p))
        db).1.runners
      ≡ new_row (create_params p) db.next_id ∷ db.runners
handle_unknown_user gh app admins w cookies token p db k g m n u f =
    let cfg : Option AuthConfig = some (record { oauth_apps = app ∷ []; admins = admins }) in
    ap (λ (x : Answer × Tables). x.1.runners)
      (handle_passed gh cfg w cookies [] p db (unknown_user gh app admins cookies token k g)
        ∙ create_scaleset gh w cookies p db m n u _ refl)
    ∙ stored_payload w p db f (rw m mode_scaleset)
