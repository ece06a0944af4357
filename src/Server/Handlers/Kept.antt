-- ===== src/Server/Handlers/Kept.antt =====
-- Requests (pkg/dashboard) keep the table of runners sound.
use github_action_runners_mu.Server.Invariant.{
  insert_runner-IsTable, update_row-IsTable, delete_runner-IsTable, IsTable,
}
use github_action_runners_mu.Prelude.{
  String, ◌≡◌, refl, inl, inr, Bool, true, false, not, ◌&&◌, ◌||◌, Option, none, some, Option-cases,
  if_rule, of_if,
}
use github_action_runners_mu.Prelude.Dict.{Dict}
use github_action_runners_mu.Server.{Tables, CreateRunnerParams, find_runner, insert_runner}
use github_action_runners_mu.Server.Service.{
  World, registered, get_runner, Outcome, create_runner, UpdateRunnerInput, update_params,
  nothing_given, refusing, store_update, update_runner, delete_runner, done, refused,
}
use github_action_runners_mu.Server.Access.{
  AuthConfig, Github, Passed, check_can_manage, unauthorized, forbidden, passed,
}
use github_action_runners_mu.Server.Handlers.{
  CreatePayload, UpdatePayload, Answer, is_blank, create_params, created, create_with,
  handle_create, updated, update_with, handle_update, removed, handle_delete, Call, protected,
  handle, list_call, create_call, get_call, delete_call, update_call,
}

create_runner-IsTable :
    (w : World) (p : CreateRunnerParams) (token : String) (db : Tables)
    → IsTable db
    → IsTable (create_runner w p token db).1
unfolding create_runner
create_runner-IsTable w p token db h = elim (Option-cases (insert_runner p db)) [
  | inl n ↦ rw (n, create_runner) h
  | inr (x, k) ↦ rw (k, create_runner) (insert_runner-IsTable p db x h k)
]

update_runner-IsTable :
    (w : World) (name : String) (input : UpdateRunnerInput) (db : Tables)
    → IsTable db
    → IsTable (update_runner w name input db).1
unfolding update_runner store_update
update_runner-IsTable w name input db h = elim (Option-cases (find_runner name db.runners)) [
  | inl n ↦ rw (n, update_runner) h
  | inr (r, k) ↦ elim (Option-cases (refusing (w.live name))) [
    | inr (st, l) ↦ rw (k, l, update_runner) h
    | inl l ↦ elim (Option-cases (store_update w r input db)) [
      | inl n ↦ rw (k, l, n, update_runner) h
      | inr (x, y) ↦
          rw (k, l, y, update_runner)
            (elim (of_if (registered w r && nothing_given input) y) [
              | inl e ↦ rw (← e) h
              | inr e ↦ update_row-IsTable (update_params r.id input) db x h e
            ])
    ]
  ]
]

pub created_tables : (name : String) (x : Outcome × Tables) → (created name x).1 ≡ x.1
created_tables name (done r, db) = refl
created_tables name (refused e none, db) = refl
created_tables name (refused e (some r), db) = refl

updated_tables : (name : String) (x : Outcome × Tables) → (updated name x).1 ≡ x.1
updated_tables name (done r, db) = refl
updated_tables name (refused e r, db) = refl

removed_tables : (x : Bool × Tables) → (removed x).1 ≡ x.1
removed_tables (true, db) = refl
removed_tables (false, db) = refl

create_with-IsTable :
    (w : World) (p : CreatePayload) (token : Option String) (db : Tables)
    → IsTable db
    → IsTable (create_with w p token db).1
create_with-IsTable w p none db h = h
create_with-IsTable w p (some token) db h =
    rw (created_tables p.name (create_runner w (create_params p) token db))
      (create_runner-IsTable w (create_params p) token db h)

update_with-IsTable :
    (w : World) (name : String) (p : UpdatePayload) (token : Option String) (db : Tables)
    → IsTable db
    → IsTable (update_with w name p token db).1
update_with-IsTable w name p none db h = h
update_with-IsTable w name p (some token) db h =
    rw (updated_tables name (update_runner w name _ db)) (update_runner-IsTable w name _ db h)

protected-IsTable :
    (gh : Github) (cfg : Option AuthConfig) (w : World) (cookies : Dict String) (p : Passed)
    (call : Call) (db : Tables)
    → IsTable db
    → IsTable (protected gh cfg w cookies p call db).1
unfolding protected handle_create handle_update handle_delete
protected-IsTable gh cfg w cookies unauthorized call db h = h
protected-IsTable gh cfg w cookies forbidden call db h = h
protected-IsTable gh cfg w cookies (passed users) list_call db h = h
protected-IsTable gh cfg w cookies (passed users) (create_call none) db h = h
protected-IsTable gh cfg w cookies (passed users) (create_call (some p)) db h =
    if_rule {A = Answer × Tables} (λ x. IsTable x.1)
      (is_blank p.name || is_blank p.mode || is_blank p.url) (λ _. h)
      λ _. create_with-IsTable w p _ db h
protected-IsTable gh cfg w cookies (passed users) (get_call name) db h = h
protected-IsTable gh cfg w cookies (passed users) (delete_call name) db h =
    elim (Option-cases (get_runner w name db)) [
      | inl n ↦ rw (n, protected, handle_delete) h
      | inr (c, k) ↦
          rw (k, protected, handle_delete)
            (if_rule {A = Answer × Tables} (λ x. IsTable x.1)
              (not (check_can_manage gh cfg cookies users c.runner.url)) (λ _. h)
              λ _. rw (removed_tables (delete_runner name db)) (delete_runner-IsTable name db h))
    ]
protected-IsTable gh cfg w cookies (passed users) (update_call name none) db h = h
protected-IsTable gh cfg w cookies (passed users) (update_call name (some p)) db h =
    elim (Option-cases (get_runner w name db)) [
      | inl n ↦ rw (n, protected, handle_update) h
      | inr (c, k) ↦
          rw (k, protected, handle_update)
            (if_rule {A = Answer × Tables} (λ x. IsTable x.1)
              (not (check_can_manage gh cfg cookies users c.runner.url)) (λ _. h)
              λ _. update_with-IsTable w name p _ db h)
    ]

-- No request makes two rows with one name or with one identifier.
pub handle-IsTable :
    (gh : Github) (cfg : Option AuthConfig) (w : World) (cookies cache : Dict String) (call : Call)
    (db : Tables)
    → IsTable db
    → IsTable (handle gh cfg w cookies cache call db).1
unfolding handle
handle-IsTable gh cfg w cookies cache call db h = protected-IsTable gh cfg w cookies _ call db h
