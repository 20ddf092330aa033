-- ===== src/Orgdb.antt =====
-- internal/orgdb: the tables, and a statement as a step on them that may not reach the database.
-- A SQL statement is the operation on rows that it says; the engine below is not modelled.
pub mod Tables
pub mod Users
pub mod Sessions
pub mod Bindings
pub mod Organizations
use Prim.Native.String as Text
use hyve.Prelude.{
  ℕ, suc, String, Bool, true, false, Option, none, some, List, [], ◌∷◌, Result, ok, err,
  if◌then◌else◌, keep, not,
}
use hyve.Prelude.State.{State}

pub record User : Type 0 where
  pub id : String
  pub username : String
  pub email : Option String
  pub password_hash : Option String

pub record Binding : Type 0 where
  pub id : String
  pub namespace : String
  pub organization_id : Option String
  pub environment_id : Option String
  pub subject_type : String
  pub identity : String
  pub role : String
  pub password_hash : Option String
  pub email : Option String

pub record Session : Type 0 where
  pub id : String
  pub subject : String
  pub tenant_namespace : String
  pub token_hash : String
  pub expires_at : ℕ

pub record PasswordResetToken : Type 0 where
  pub id : String
  pub user_id : String
  pub token_hash : String
  pub expires_at : ℕ

pub record Organization : Type 0 where
  pub id : String
  pub name : String
  pub namespace : String
  pub plan : String
  pub metadata : String
  pub reconciling_cluster_id : Option String
  pub pending_deletion : Bool

pub record Environment : Type 0 where
  pub id : String
  pub organization_id : String
  pub name : String
  pub metadata : String

pub record ReconcilingCluster : Type 0 where
  pub id : String
  pub name : String
  pub organization_id : Option String
  pub kubeconfig : String

abbrev pub subject_type_local : String
subject_type_local = "local"

abbrev pub default_environment_name : String
default_environment_name = "default"

pub record Mail : Type 0 where
  pub to : String
  pub template : String

-- The tables, the mails that were handed to email.Send, and how many statements were sent, which numbers what the outside answers.
pub record Db : Type 0 where
  pub users : List User
  pub bindings : List Binding
  pub sessions : List Session
  pub reset_tokens : List PasswordResetToken
  pub organizations : List Organization
  pub environments : List Environment
  pub reconciling_clusters : List ReconcilingCluster
  pub mails : List Mail
  pub sent : ℕ

pub data StoreError : Type 0 where
  not_found : StoreError
  failed : StoreError

abbrev pub M : Type 0 → Type 0
M A = State Db (Result StoreError A)

infixl 5 ◌>>=◌ ◌>>◌
abbrev pub ◌>>=◌ : {A B : Type 0} → M A → (A → M B) → M B
◌>>=◌ m f db = let (r, db') = m db in elim r [ ok a ↦ f a db' | err e ↦ (err e, db') ]

abbrev pub ◌>>◌ : {A B : Type 0} → M A → M B → M B
m >> k = m >>= λ _. k

abbrev pub raise : {A : Type 0} → StoreError → M A
raise e db = (err e, db)

-- The first row, or ErrNotFound.
abbrev pub first_row : {A : Type 0} → List A → Result StoreError A
first_row [] = err not_found
first_row (row ∷ rows) = ok row

-- What the database and the generator of ids answer to the statement of a number.
pub record Engine : Type 0 where
  pub is_up : ℕ → Bool
  pub new_id : ℕ → String

abbrev pub count_statement : Db → Db
count_statement db = record db { sent = suc db.sent }

unfoldable pub settle : Bool → Option Db → Db → Result StoreError (Unit {0}) × Db
settle true (some changed) db = (ok tt, count_statement changed)
settle true none db = (err failed, count_statement db)
settle false changed db = (err failed, count_statement db)

module _ (engine : Engine) where
  -- s.query
  unfoldable pub query : {A : Type 0} → (Db → List A) → M (List A)
  query rows db =
      if engine.is_up db.sent
      then (ok (rows db), count_statement db)
      else (err failed, count_statement db)

  -- s.queryRow and the scan of the row
  unfoldable pub query_row : {A : Type 0} → (Db → List A) → M A
  query_row rows db =
      if engine.is_up db.sent
      then (first_row (rows db), count_statement db)
      else (err failed, count_statement db)

  -- s.exec; `none` is a violated constraint.
  unfoldable pub exec : (Db → Option Db) → M (Unit {0})
  unfolding settle
  exec change db = settle (engine.is_up db.sent) (change db) db
