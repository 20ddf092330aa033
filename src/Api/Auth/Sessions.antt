-- ===== src/Api/Auth/Sessions.antt =====
-- What a session of internal/api/auth_handlers.go is good for, and until when.
use hyve.Prelude.{
  ℕ, ◌+◌, String, true, none, some, List, ◌∷◌, ◌==◌, ◌≡◌, ◌≢◌, ◌∙◌, refl, arith, if◌then◌else◌, ltb,
  ok, err, keep-keep-not, Result, inl, inr, str_eq_self, str_eq_of_ne, Option-cases,
}
use hyve.Prelude.Text.{◌<>◌, HasNo, cut_first-append, append_dot}
use hyve.Orgdb.{Db, Session, StoreError, query_row, exec}
use hyve.Orgdb.Sessions.{get_session, create_session, insert_session, delete_session}
use hyve.Api.Token.{issue_access_token, session_ttl, access_token_ttl}
use hyve.Api.Server.{Server, Response, reply, refuse}
use hyve.Api.Auth.{
  LoginResponse, RefreshResponse, split_session_token, conclude_session, issue_session,
  check_session, refresh_session, handle_refresh, revoke, handle_logout,
}

-- The reply to a refresh whose session is good.
abbrev pub renewed : Server → ℕ → String → String → Response RefreshResponse
renewed server now subject namespace =
    elim (issue_access_token server.codec server.signing_key now subject namespace) [
      | none ↦ refuse 500
      | some token ↦
          reply (record { access_token = token; access_token_expires_at = now + access_token_ttl })
    ]

-- What is relied on for ids and secrets.
pub record IsRandom (server : Server) : Type 0 where
  pub dotless : (n : ℕ) → HasNo b'.' (server.engine.new_id n)
  pub named : (n : ℕ) → server.engine.new_id n ≢ ""
  pub secret : (n : ℕ) (s : String) → server.random n ≡ some s → s ≢ ""

module _ (server : Server) where
  revoke_gone :
      (id secret other : String) (now later : ℕ) (db : Db)
      → (revoke server now (some (id, secret)) db).0 ≡ reply tt
      → (refresh_session server later
          (some (id, other))
          (revoke server now (some (id, secret)) db).1).0
        ≡ refuse 401
  unfolding revoke refresh_session delete_session exec get_session query_row check_session
  revoke_gone id secret other now later db h =
      ground (arith, keep-keep-not (λ (s : Session). s.id == id) db.sessions)

  -- After a logout that succeeded, no refresh with the same well-formed session token does.
  pub handle_refresh-handle_logout :
      (token id secret : String) (now later : ℕ) (db : Db)
      → split_session_token token ≡ some (id, secret)
      → (handle_logout server now (some token) db).0 ≡ reply tt
      → (handle_refresh server later (some token) (handle_logout server now (some token) db).1).0
        ≡ refuse 401
  unfolding handle_refresh handle_logout
  handle_refresh-handle_logout token id secret now later db s h =
      rw s (revoke_gone id secret secret now later db (rw (s, handle_logout) at h))

  -- The parts of the session token that a session is given.
  split_session_token-eq :
      (id secret : String)
      → HasNo b'.' id
      → id ≢ ""
      → secret ≢ ""
      → split_session_token (id <> ("." <> secret)) ≡ some (id, secret)
  unfolding split_session_token
  split_session_token-eq id secret plain i s = rw (append_dot secret) (
      ground
        (arith, cut_first-append b'.' "." id secret refl plain, str_eq_of_ne i, str_eq_of_ne s))

  -- A session that was stored is the first row, and it is the one that was given.
  insert_session_stored :
      (s : Session) (db : Db) {stored : Session}
      → (insert_session server.engine s db).0 ≡ ok stored
      → (stored ≡ s) × ((insert_session server.engine s db).1.sessions ≡ s ∷ db.sessions)
  unfolding insert_session exec get_session query_row
  insert_session_stored s db h = ground (arith, str_eq_self s.id)

  check_stored :
      (s : Session) (secret : String) (later : ℕ)
      → s.token_hash ≡ server.hash_session_secret secret
      → check_session server later secret (ok s) ≡ (
          if ltb s.expires_at later
          then refuse 401
          else renewed server later s.subject s.tenant_namespace)
  unfolding check_session
  check_stored s secret later e = ground (arith, str_eq_self s.token_hash)

  refresh_session_first :
      (s : Session) (secret : String) (later : ℕ) (db : Db) (rest : List Session)
      → server.engine.is_up db.sent ≡ true
      → db.sessions ≡ s ∷ rest
      → (refresh_session server later (some (s.id, secret)) db).0
        ≡ check_session server later secret (ok s)
  unfolding refresh_session get_session query_row
  refresh_session_first s secret later db rest up e = ground (arith, str_eq_self s.id)

  -- The session that is issued, with its id.
  abbrev issued : String → String → String → ℕ → Db → Session
  issued secret subject namespace now db = record {
    id = server.engine.new_id db.sent;
    subject = subject;
    tenant_namespace = namespace;
    token_hash = server.hash_session_secret secret;
    expires_at = now + session_ttl;
  }

  conclude_session-some :
      (secret subject namespace : String) (now : ℕ) (db : Db) (created : Result StoreError Session)
      {response : LoginResponse}
      → (conclude_session server now secret subject namespace created db).0 ≡ some response
      → (stored : Session) × (created ≡ ok stored)
        × (response.session_token ≡ stored.id <> ("." <> secret))
        × ((conclude_session server now secret subject namespace created db).1 ≡ db)
  unfolding conclude_session
  conclude_session-some secret subject namespace now db (err e) h = cc
  conclude_session-some secret subject namespace now db (ok stored) h =
      (stored, refl, ground arith, ground arith)

  -- The state after an issue is that after the insertion.
  issue_session_stored :
      (secret subject namespace : String) (now : ℕ) (db : Db)
      → server.random db.sent ≡ some secret
      → (issue_session server now subject namespace db)
        ≡ conclude_session server now secret subject namespace
            (insert_session server.engine (issued secret subject namespace now db) db).0
            (insert_session server.engine (issued secret subject namespace now db) db).1
  unfolding issue_session create_session
  issue_session_stored secret subject namespace now db e = rw (e, issue_session) refl

  -- The same, with the reply and the stored session.
  issue_session-IsStored :
      (subject namespace : String) (now : ℕ) (db : Db) {response : LoginResponse}
      → IsRandom server
      → (issue_session server now subject namespace db).0 ≡ some response
      → (secret : String) × (split_session_token response.session_token
          ≡ some ((issued secret subject namespace now db).id, secret))
        × ((issue_session server now subject namespace db).1.sessions
            ≡ issued secret subject namespace now db ∷ db.sessions)
  unfolding issue_session
  issue_session-IsStored subject namespace now db random h =
      elim (Option-cases (server.random db.sent)) [
        | inl e ↦ let no = rw (e, issue_session) at h in cc
        | inr (secret, e) ↦
            let s = issued secret subject namespace now db in
            let (created, db') = insert_session server.engine s db in
            let whole = issue_session_stored secret subject namespace now db e in
            let (stored, made, token, state) =
              conclude_session-some secret subject namespace now db' created (rw whole at h) in
            let (same, rows) = insert_session_stored s db made in
            (
              secret,
              rw (token, same)
                  (split_session_token-eq s.id secret (random.dotless db.sent)
                    (random.named db.sent) (random.secret db.sent secret e)),
              rw (whole, state) rows,
            )
      ]

  -- A session token that was issued can be exchanged for an access token of the same user and
  -- namespace, if the database answers, until thirty days have passed, and is refused from then on.
  pub handle_refresh-issue_session :
      (subject namespace : String) (now later : ℕ) (db : Db) {response : LoginResponse}
      → IsRandom server
      → (issue_session server now subject namespace db).0 ≡ some response
      → server.engine.is_up (issue_session server now subject namespace db).1.sent ≡ true
      → (handle_refresh server later
          (some response.session_token)
          (issue_session server now subject namespace db).1).0
        ≡ (if ltb (now + session_ttl) later
            then refuse 401
            else renewed server later subject namespace)
  unfolding handle_refresh
  handle_refresh-issue_session subject namespace now later db random h up =
      let (secret, token, rows) = issue_session-IsStored subject namespace now db random h in
      let s = issued secret subject namespace now db in
      rw token (
        refresh_session_first s secret later (issue_session server now subject namespace db).1
          db.sessions up rows
        ∙ check_stored s secret later refl)
