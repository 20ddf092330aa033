-- ===== src/Orgdb/Sessions.antt =====
-- internal/orgdb/crud.go: sessions and password reset tokens.
use hyve.Prelude.{◌||◌, String, not, none, some, ◌∷◌, ◌==◌, if◌then◌else◌, any, keep}
use hyve.Orgdb.{Session, PasswordResetToken, M, ◌>>◌, Engine, query_row, exec}
use hyve.Orgdb.Users.{has_id}

module _ (engine : Engine) where
  unfoldable pub get_session : String → M Session
  unfolding query_row
  get_session id = query_row engine (λ db. keep (λ s. s.id == id) db.sessions)

  -- The part of CreateSession after the id is set.
  unfoldable pub insert_session : Session → M Session
  unfolding exec get_session
  insert_session s =
      exec engine (λ db.
        if any (λ other. other.id == s.id) db.sessions
        then none
        else some (record db { sessions = s ∷ db.sessions }))
      >> get_session s.id

  unfoldable pub create_session : Session → M Session
  unfolding insert_session
  create_session s db =
      if s.id == ""
      then insert_session (record s { id = engine.new_id db.sent }) db
      else insert_session s db

  unfoldable pub delete_session : String → M (Unit {0})
  unfolding exec
  delete_session id =
      exec engine (λ db. some (record db { sessions = keep (λ s. not (s.id == id)) db.sessions }))

  unfoldable pub delete_sessions_by_subject : String → M (Unit {0})
  unfolding exec
  delete_sessions_by_subject subject =
      exec engine
        (λ db. some (record db { sessions = keep (λ s. not (s.subject == subject)) db.sessions }))

  -- The statements of CreatePasswordResetToken after the id is set.
  unfoldable pub replace_reset_token : PasswordResetToken → M PasswordResetToken
  unfolding exec query_row
  replace_reset_token t =
      exec engine (λ db. some (record db {
        reset_tokens = keep (λ other. not (other.user_id == t.user_id)) db.reset_tokens;
      }))
      >> exec engine (λ db.
        if any (λ other. other.id == t.id) db.reset_tokens || not (any (has_id t.user_id) db.users)
        then none
        else some (record db { reset_tokens = t ∷ db.reset_tokens }))
      >> query_row engine (λ db. keep (λ other. other.id == t.id) db.reset_tokens)

  unfoldable pub create_password_reset_token : PasswordResetToken → M PasswordResetToken
  unfolding replace_reset_token
  create_password_reset_token t db =
      if t.id == ""
      then replace_reset_token (record t { id = engine.new_id db.sent }) db
      else replace_reset_token t db

  unfoldable pub get_password_reset_token_by_user_id : String → M PasswordResetToken
  unfolding query_row
  get_password_reset_token_by_user_id user_id =
      query_row engine (λ db. keep (λ t. t.user_id == user_id) db.reset_tokens)
