-- ===== src/Server/Handlers/Tokens.antt =====
-- The tokens of the runners stay in the backend (pkg/dashboard).
use github_action_runners_mu.Prelude.{
  String, ◌≡◌, refl, inl, inr, Bool, true, false, not, ◌||◌, Option, none, some, List, [], ◌∷◌, map,
  Option-cases, if_rule, All,
}
use github_action_runners_mu.Prelude.Dict.{Dict}
use github_action_runners_mu.Mux.{Row}
use github_action_runners_mu.Server.{Tables, CreateRunnerParams, find_runner, insert_runner}
use github_action_runners_mu.Server.Service.{
  World, CombinedRunner, combined, list_runners, get_runner, Outcome, started, create_runner,
  UpdateRunnerInput, refusing, store_update, update_runner, delete_runner, done, refused,
}
use github_action_runners_mu.Server.Access.{
  AuthConfig, Github, Passed, check_can_manage, unauthorized, forbidden, passed,
}
use github_action_runners_mu.Server.Handlers.{
  CreatePayload, UpdatePayload, Body, Answer, is_blank, create_params, created, create_with,
  handle_create, handle_get, is_conflict, updated, update_with, handle_update, removed,
  handle_delete, Call, protected, handle, row, combined_row, combined_rows, list_call, create_call,
  get_call, delete_call, update_call,
}

-- No token is in an answer.
abbrev pub HasNoPat : Body → Type 0
HasNoPat (row r) = r.pat ≡ ""
HasNoPat (combined_row c) = c.runner.pat ≡ ""
HasNoPat (combined_rows cs) = All (λ (c : CombinedRunner). c.runner.pat ≡ "") cs
HasNoPat b = Unit

abbrev IsClean : Outcome → Type 0
IsClean (done r) = r.pat ≡ ""
IsClean (refused e r) = Unit

started-IsClean : (m : Option String) (r : Row) (b : Bool) → IsClean (started m r b)
started-IsClean none r b = refl
started-IsClean (some m) r b = tt

create_runner-IsClean :
    (w : World) (p : CreateRunnerParams) (token : String) (db : Tables)
    → IsClean (create_runner w p token db).0
unfolding create_runner
create_runner-IsClean w p token db = elim (Option-cases (insert_runner p db)) [
  | inl n ↦ rw (n, create_runner) tt
  | inr (x, k) ↦ rw (k, create_runner) (started-IsClean (w.add_runner x.0 token) x.0 true)
]

update_runner-IsClean :
    (w : World) (name : String) (input : UpdateRunnerInput) (db : Tables)
    → IsClean (update_runner w name input db).0
unfolding update_runner
update_runner-IsClean w name input db = elim (Option-cases (find_runner name db.runners)) [
  | inl n ↦ rw (n, update_runner) tt
  | inr (r, k) ↦ elim (Option-cases (refusing (w.live name))) [
    | inr (st, l) ↦ rw (k, l, update_runner) tt
    | inl l ↦ elim (Option-cases (store_update w r input db)) [
      | inl n ↦ rw (k, l, n, update_runner) tt
      | inr (x, y) ↦
          rw (k, l, y, update_runner) (started-IsClean (w.add_runner x.0 input.reg_token) x.0 false)
    ]
  ]
]

created-HasNoPat :
    (name : String) (x : Outcome × Tables) → IsClean x.0 → HasNoPat (created name x).0.body
created-HasNoPat name (done r, db) h = h
created-HasNoPat name (refused e none, db) h = tt
created-HasNoPat name (refused e (some r), db) h = tt

updated-HasNoPat :
    (name : String) (x : Outcome × Tables) → IsClean x.0 → HasNoPat (updated name x).0.body
updated-HasNoPat name (done r, db) h = h
updated-HasNoPat name (refused e r, db) h =
    if_rule (λ (a : Answer). HasNoPat a.body) (is_conflict e) (λ _. tt) (λ _. tt)

create_with-HasNoPat :
    (w : World) (p : CreatePayload) (token : Option String) (db : Tables)
    → HasNoPat (create_with w p token db).0.body
create_with-HasNoPat w p none db = tt
create_with-HasNoPat w p (some token) db =
    created-HasNoPat p.name (create_runner w (create_params p) token db)
      (create_runner-IsClean w (create_params p) token db)

update_with-HasNoPat :
    (w : World) (name : String) (p : UpdatePayload) (token : Option String) (db : Tables)
    → HasNoPat (update_with w name p token db).0.body
update_with-HasNoPat w name p none db = tt
update_with-HasNoPat w name p (some token) db =
    updated-HasNoPat name (update_runner w name _ db) (update_runner-IsClean w name _ db)

removed-HasNoPat : (x : Bool × Tables) → HasNoPat (removed x).0.body
removed-HasNoPat (true, db) = tt
removed-HasNoPat (false, db) = tt

list_runners-HasNoPat :
    (w : World) (rs : List Row)
    → All (λ (c : CombinedRunner). c.runner.pat ≡ "") (map (combined w) rs)
unfolding combined
list_runners-HasNoPat w [] = tt
list_runners-HasNoPat w (r ∷ rs) = (refl, list_runners-HasNoPat w rs)

module _ (gh : Github) (cfg : Option AuthConfig) (w : World) (cookies : Dict String) where
  create-HasNoPat :
      (p : Option CreatePayload) (db : Tables) → HasNoPat (handle_create gh w cookies p db).0.body
  unfolding handle_create
  create-HasNoPat none db = tt
  create-HasNoPat (some p) db =
      if_rule {A = Answer × Tables} (λ x. HasNoPat x.0.body)
        (is_blank p.name || is_blank p.mode || is_blank p.url) (λ _. tt)
        λ _. create_with-HasNoPat w p _ db

  get-HasNoPat :
      (users : Option (Dict String)) (name : String) (db : Tables)
      → HasNoPat (handle_get gh cfg w cookies users name db).body
  unfolding handle_get get_runner combined
  get-HasNoPat users name db = elim (Option-cases (find_runner name db.runners)) [
    | inl n ↦ rw (n, handle_get, get_runner) tt
    | inr (r, k) ↦ rw (k, handle_get, get_runner) refl
  ]

  update-HasNoPat :
      (users : Option (Dict String)) (name : String) (p : Option UpdatePayload) (db : Tables)
      → HasNoPat (handle_update gh cfg w cookies users name p db).0.body
  unfolding handle_update
  update-HasNoPat users name none db = tt
  update-HasNoPat users name (some p) db = elim (Option-cases (get_runner w name db)) [
    | inl n ↦ rw (n, handle_update) tt
    | inr (c, k) ↦
        rw (k, handle_update)
          (if_rule {A = Answer × Tables} (λ x. HasNoPat x.0.body)
            (not (check_can_manage gh cfg cookies users c.runner.url)) (λ _. tt)
            λ _. update_with-HasNoPat w name p _ db)
  ]

  delete-HasNoPat :
      (users : Option (Dict String)) (name : String) (db : Tables)
      → HasNoPat (handle_delete gh cfg w cookies users name db).0.body
  unfolding handle_delete
  delete-HasNoPat users name db = elim (Option-cases (get_runner w name db)) [
    | inl n ↦ rw (n, handle_delete) tt
    | inr (c, k) ↦
        rw (k, handle_delete)
          (if_rule {A = Answer × Tables} (λ x. HasNoPat x.0.body)
            (not (check_can_manage gh cfg cookies users c.runner.url)) (λ _. tt)
            λ _. removed-HasNoPat (delete_runner name db))
  ]

  protected-HasNoPat :
      (p : Passed) (call : Call) (db : Tables)
      → HasNoPat (protected gh cfg w cookies p call db).0.body
  unfolding protected list_runners
  protected-HasNoPat unauthorized call db = tt
  protected-HasNoPat forbidden call db = tt
  protected-HasNoPat (passed users) list_call db = list_runners-HasNoPat w db.runners
  protected-HasNoPat (passed users) (create_call p) db = create-HasNoPat p db
  protected-HasNoPat (passed users) (get_call name) db = get-HasNoPat users name db
  protected-HasNoPat (passed users) (delete_call name) db = delete-HasNoPat users name db
  protected-HasNoPat (passed users) (update_call name p) db = update-HasNoPat users name p db

-- Whatever is asked of the routes about runners, by whomever, the answer carries no runner's token.
pub handle-HasNoPat :
    (gh : Github) (cfg : Option AuthConfig) (w : World) (cookies cache : Dict String) (call : Call)
    (db : Tables)
    → HasNoPat (handle gh cfg w cookies cache call db).0.body
unfolding handle
handle-HasNoPat gh cfg w cookies cache call db = protected-HasNoPat gh cfg w cookies _ call db
