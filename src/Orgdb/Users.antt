-- ===== src/Orgdb/Users.antt =====
-- internal/orgdb/users.go: the users, one for each username.
use hyve.Prelude.{
  String, Bool, true, false, not, Option, none, some, List, ◌∷◌, ◌==◌, ◌&&◌, ◌||◌, if◌then◌else◌,
  any, keep, Result, ok, err,
}
use hyve.Orgdb.{
  Db, User, Binding, M, ◌>>=◌, ◌>>◌, raise, StoreError, failed, not_found, Engine, query, query_row,
  exec,
}
use hyve.Orgdb.Tables.{is_equal, order_by, update}

abbrev pub has_id : String → User → Bool
has_id id u = u.id == id

abbrev pub has_username : String → User → Bool
has_username username u = u.username == username

abbrev pub has_email : String → User → Bool
has_email email u = is_equal u.email email

-- The unique columns of the table in internal/orgdb/migrations: the id, the username, and the email of those who have one.
abbrev pub clashes : User → List User → Bool
clashes u users =
    any (has_id u.id) users
    || (any (has_username u.username) users
        || elim u.email [ none ↦ false | some email ↦ any (has_email email) users ])

-- UPDATE users SET email: refused if another row has it.
abbrev pub change_email : String → Option String → Db → Option Db
change_email id email db =
    let taken : Bool = elim email [
      | none ↦ false
      | some e ↦ any (λ u. not (has_id id u) && has_email e u) db.users
    ] in
    if taken
    then none
    else some (record db { users = update (has_id id) (λ u. record u { email = email }) db.users })

module _ (engine : Engine) where
  unfoldable pub get_user_by_id : String → M User
  unfolding query_row
  get_user_by_id id = query_row engine (λ db. keep (has_id id) db.users)

  unfoldable pub get_user_by_username : String → M User
  unfolding query_row
  get_user_by_username username = query_row engine (λ db. keep (has_username username) db.users)

  unfoldable pub get_user_by_email : String → M User
  unfolding query_row
  get_user_by_email email = query_row engine (λ db. keep (has_email email) db.users)

  unfoldable pub list_users : M (List User)
  unfolding query order_by
  list_users = query engine (λ db. order_by (λ u. u.username) db.users)

  -- The part of CreateUser after the id is set.
  unfoldable pub insert_user : User → M User
  unfolding exec get_user_by_id
  insert_user u =
      if u.username == ""
      then raise failed
      else exec engine
          (λ db. if clashes u db.users then none else some (record db { users = u ∷ db.users }))
        >> get_user_by_id u.id

  unfoldable pub create_user : User → M User
  unfolding insert_user
  create_user u db =
      if u.id == ""
      then insert_user (record u { id = engine.new_id db.sent }) db
      else insert_user u db

  unfoldable pub set_user_password : String → String → M (Unit {0})
  unfolding exec
  set_user_password id hash = exec engine (λ db. some (record db {
    users = update (has_id id) (λ u. record u { password_hash = some hash }) db.users;
  }))

  unfoldable pub set_user_email : String → Option String → M (Unit {0})
  unfolding exec
  set_user_email id email = exec engine (change_email id email)

  unfoldable pub delete_password_reset_tokens_for_user : String → M (Unit {0})
  unfolding exec
  delete_password_reset_tokens_for_user user_id = exec engine (λ db.
      some (record db { reset_tokens = keep (λ t. not (t.user_id == user_id)) db.reset_tokens }))

  unfoldable pub delete_user : String → M (Unit {0})
  unfolding exec delete_password_reset_tokens_for_user
  delete_user id =
      delete_password_reset_tokens_for_user id
      >> exec engine (λ db. some (record db { users = keep (λ u. not (has_id id u)) db.users }))

  unfoldable pub list_bindings_for_identity : String → String → M (List Binding)
  unfolding query order_by
  list_bindings_for_identity subject_type identity = query engine (λ db.
      order_by (λ b. b.namespace)
        (keep (λ b. b.subject_type == subject_type && b.identity == identity) db.bindings))

  -- EnsureUser: the user, and whether it was created.
  unfoldable pub keep_user : Option String → User → M (User × Bool)
  unfolding set_user_password
  keep_user none u = λ db. (ok (u, false), db)
  keep_user (some hash) u =
      set_user_password u.id hash >> λ db. (ok (record u { password_hash = some hash }, false), db)

  unfoldable pub conclude_ensure :
      String → Option String → Option String → Result StoreError User → M (User × Bool)
  unfolding create_user keep_user
  conclude_ensure username hash email (err not_found) =
      create_user (record { id = ""; username = username; email = email; password_hash = hash })
      >>= λ u db. (ok (u, true), db)
  conclude_ensure username hash email (err failed) = raise failed
  conclude_ensure username hash email (ok u) = keep_user hash u

  unfoldable pub ensure_user : String → Option String → Option String → M (User × Bool)
  unfolding get_user_by_username conclude_ensure
  ensure_user username hash email db =
      let (found, db') = get_user_by_username username db in
      conclude_ensure username hash email found db'
