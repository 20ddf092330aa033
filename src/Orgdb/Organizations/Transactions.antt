-- ===== src/Orgdb/Organizations/Transactions.antt =====
-- A transaction of internal/orgdb/crud.go: what it and its statements leave behind.
use hyve.Prelude.{
  Bool, true, false, Option, none, some, ◌≡◌, ◌⊎◌, inl, inr, refl, ap, ◌∙◌, arith, Result, ok, err,
  Bool-cases,
}
use hyve.Orgdb.{Db, M, ◌>>=◌, ◌>>◌, StoreError, Engine, exec, settle, count_statement}
use hyve.Orgdb.Organizations.{with_sent, commit, transaction}

pub Result-cases :
    {A : Type 0} (r : Result StoreError A)
    → ((a : A) × (r ≡ ok a)) ⊎ ((e : StoreError) × (r ≡ err e))
Result-cases (ok a) = inl (a, refl)
Result-cases (err e) = inr (e, refl)

pub bind_at :
    {A B : Type 0} (m : M A) (f : A → M B) (db : Db) {a : A}
    → (m db).0 ≡ ok a
    → (m >>= f) db ≡ f a (m db).1
bind_at m f db e = rw (e, ◌>>=◌) refl

pub bind_err :
    {A B : Type 0} (m : M A) (f : A → M B) (db : Db) {x : StoreError}
    → (m db).0 ≡ err x
    → (m >>= f) db ≡ (err x, (m db).1)
bind_err m f db e = rw (e, ◌>>=◌) refl

settle-ok :
    (up : Bool) (change : Option Db) (db : Db)
    → (settle up change db).0 ≡ ok tt
    → (changed : Db) × (change ≡ some changed) × ((settle up change db).1 ≡ count_statement changed)
unfolding settle
settle-ok true (some changed) db h = (changed, refl, refl)
settle-ok true none db h = cc
settle-ok false change db h = cc

-- The first part of a chain that ended well.
bind-ok :
    {A B : Type 0} (m : M A) (f : A → M B) (db : Db) {b : B}
    → ((m >>= f) db).0 ≡ ok b
    → (a : A) × ((m db).0 ≡ ok a) × ((m >>= f) db ≡ f a (m db).1)
bind-ok m f db h = elim (Result-cases (m db).0) [
  | inl (a, e) ↦ (a, e, bind_at m f db e)
  | inr (x, e) ↦ let no = rw (e, ◌>>=◌) at h in cc
]

module _ (engine : Engine) where
  -- A transaction that fails leaves the tables as they were.
  commit_kept :
      {A : Type 0} (before : Db) (r : Result StoreError A) (db : Db) (e : StoreError)
      → (commit engine before (r, db)).0 ≡ err e
      → (commit engine before (r, db)).1 ≡ with_sent before (commit engine before (r, db)).1
  unfolding commit
  commit_kept before (err _) db e h = refl
  commit_kept before (ok a) db e h = ground arith

  commit-ok :
      {A : Type 0} (before : Db) (r : Result StoreError A) (db : Db) {a : A}
      → (commit engine before (r, db)).0 ≡ ok a
      → (r ≡ ok a) × ((commit engine before (r, db)).1 ≡ count_statement db)
  unfolding commit
  commit-ok before (err _) db h = cc
  commit-ok before (ok a) db h = ground arith

  pub transaction_kept :
      {A : Type 0} (m : M A) (db : Db) (e : StoreError)
      → (transaction engine m db).0 ≡ err e
      → (transaction engine m db).1 ≡ with_sent db (transaction engine m db).1
  unfolding transaction
  transaction_kept m db e h = elim (Bool-cases (engine.is_up db.sent)) [
    | inl up ↦
        let (r, db') = m (count_statement db) in
        rw (up, transaction) (commit_kept db r db' e (rw (up, transaction) at h))
    | inr down ↦ rw (down, transaction) refl
  ]

  pub exec-ok :
      (change : Db → Option Db) (db : Db)
      → (exec engine change db).0 ≡ ok tt
      → (changed : Db) × (change db ≡ some changed)
        × ((exec engine change db).1 ≡ count_statement changed)
  unfolding exec
  exec-ok change db h = settle-ok (engine.is_up db.sent) (change db) db h

  -- A statement at the head of a chain that ended well.
  pub exec_then-ok :
      {B : Type 0} (change : Db → Option Db) (k : M B) (db : Db) {b : B}
      → ((exec engine change >> k) db).0 ≡ ok b
      → (changed : Db) × (change db ≡ some changed)
        × ((exec engine change >> k) db ≡ k (count_statement changed))
  exec_then-ok change k db h =
      let (done, first, rest) = bind-ok (exec engine change) (λ _. k) db h in
      let (changed, e, state) = exec-ok change db first in (changed, e, rest ∙ ap k state)

  pub transaction-ok :
      {A : Type 0} (m : M A) (db : Db) {a : A}
      → (transaction engine m db).0 ≡ ok a
      → ((m (count_statement db)).0 ≡ ok a)
        × ((transaction engine m db).1 ≡ count_statement (m (count_statement db)).1)
  unfolding transaction
  transaction-ok m db h = elim (Bool-cases (engine.is_up db.sent)) [
    | inl up ↦
        let (r, db') = m (count_statement db) in
        let (fine, state) = commit-ok db r db' (rw (up, transaction) at h) in
        (fine, rw (up, transaction) state)
    | inr down ↦ let no = rw (down, transaction) at h in cc
  ]
