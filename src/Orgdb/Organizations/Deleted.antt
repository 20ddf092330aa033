-- ===== src/Orgdb/Organizations/Deleted.antt =====
-- What the transactions of internal/orgdb/crud.go leave behind.
use mathlib.Core.Path.{subst}
use hyve.Prelude.{
  String, false, not, none, some, ◌==◌, ◌≡◌, ◌⊎◌, inl, inr, refl, sym, ap, ◌∙◌, arith, any, keep,
  Result, ok, err, Bool-cases, any-keep-not,
}
use hyve.Orgdb.{
  Db, Organization, Environment, M, ◌>>◌, StoreError, Engine, exec, query_row, first_row,
  count_statement,
}
use hyve.Orgdb.Organizations.Transactions.{
  Result-cases, bind_at, bind_err, exec-ok, exec_then-ok, transaction_kept, transaction-ok,
}
use hyve.Orgdb.Tables.{is_equal, update}
use hyve.Orgdb.Organizations.{
  with_sent, transaction, get_organization, drop_environments, drop_clusters, drop_organization,
  drop_bindings, detach_clusters, delete_organization_rows, delete_organization,
}

-- Nothing is left of an organization but its users.
pub record IsGone (org : Organization) (db : Db) : Type 0 where
  pub bindings : any (λ b. b.namespace == org.namespace) db.bindings ≡ false
  pub environments : any (λ e. e.organization_id == org.id) db.environments ≡ false
  pub clusters : any (λ c. is_equal c.organization_id org.id) db.reconciling_clusters ≡ false
  pub row : any (λ o. o.id == org.id) db.organizations ≡ false

IsGone-count_statement :
    (org : Organization) (db : Db) → IsGone org db → IsGone org (count_statement db)
IsGone-count_statement org db g = record {
  bindings = g.bindings;
  environments = g.environments;
  clusters = g.clusters;
  row = g.row;
}

drop_environments-some :
    (org : Organization) (db : Db) {db' : Db}
    → drop_environments (λ e. e.organization_id == org.id) db ≡ some db'
    → record db { environments = keep (λ e. not (e.organization_id == org.id)) db.environments }
      ≡ db'
drop_environments-some org db h = ground arith

drop_clusters-some :
    (id : String) (db : Db) {db' : Db}
    → drop_clusters id db ≡ some db'
    → record db {
      reconciling_clusters =
          keep (λ c. not (is_equal c.organization_id id)) db.reconciling_clusters;
    }
      ≡ db'
drop_clusters-some id db h = ground arith

drop_organization-some :
    (id : String) (db : Db) {db' : Db}
    → drop_organization id db ≡ some db'
    → record db { organizations = keep (λ o. not (o.id == id)) db.organizations } ≡ db'
drop_organization-some id db h = ground arith

drop_bindings-some :
    (namespace : String) (db : Db) {db' : Db}
    → drop_bindings namespace db ≡ some db'
    → record db { bindings = keep (λ b. not (b.namespace == namespace)) db.bindings } ≡ db'
drop_bindings-some namespace db h = ground arith

detach_clusters-some :
    (id : String) (db : Db) {db' : Db}
    → detach_clusters id db ≡ some db'
    → record db {
      organizations =
          update
            (λ o. o.id == id)
            (λ o. record o { reconciling_cluster_id = none })
            db.organizations;
    }
      ≡ db'
detach_clusters-some id db h = ground arith

-- The five statements, one after the other.
statements-IsGone :
    (org : Organization) (db : Db) {d1 d2 d3 d4 d5 : Db}
    → drop_bindings org.namespace db ≡ some d1
    → drop_environments (λ e. e.organization_id == org.id) (count_statement d1) ≡ some d2
    → detach_clusters org.id (count_statement d2) ≡ some d3
    → drop_clusters org.id (count_statement d3) ≡ some d4
    → drop_organization org.id (count_statement d4) ≡ some d5
    → IsGone org (count_statement d5)
statements-IsGone org db {d1} {d2} {d3} {d4} {d5} e1 e2 e3 e4 e5 =
    let p1 = drop_bindings-some org.namespace db e1 in
    let p2 = drop_environments-some org (count_statement d1) e2 in
    let p3 = detach_clusters-some org.id (count_statement d2) e3 in
    let p4 = drop_clusters-some org.id (count_statement d3) e4 in
    let p5 = drop_organization-some org.id (count_statement d4) e5 in
    record {
      bindings = rw (← p5, ← p4, ← p3, ← p2, ← p1) (any-keep-not _ db.bindings);
      environments = rw (← p5, ← p4, ← p3, ← p2) (any-keep-not _ d1.environments);
      clusters = rw (← p5, ← p4) (any-keep-not _ d3.reconciling_clusters);
      row = rw (← p5) (any-keep-not _ d4.organizations);
    }

module _ (engine : Engine) where
  -- The rows are gone if all statements of the deletion succeeded.
  delete_organization_rows-IsGone :
      (org : Organization) (db : Db)
      → (delete_organization_rows engine org db).0 ≡ ok tt
      → IsGone org (delete_organization_rows engine org db).1
  unfolding delete_organization_rows
  delete_organization_rows-IsGone org db h =
      let doomed = λ (e : Environment). e.organization_id == org.id in
      let last = exec engine (drop_organization org.id) in
      let k4 : M (Unit {0}) = exec engine (drop_clusters org.id) >> last in
      let k3 : M (Unit {0}) = exec engine (detach_clusters org.id) >> k4 in
      let k2 : M (Unit {0}) = exec engine (drop_environments doomed) >> k3 in
      let (d1, e1, s1) = exec_then-ok engine (drop_bindings org.namespace) k2 db h in
      let c1 = count_statement d1 in
      let (d2, e2, s2) = exec_then-ok engine (drop_environments doomed) k3 c1 (rw s1 at h) in
      let c2 = count_statement d2 in
      let (d3, e3, s3) = exec_then-ok engine (detach_clusters org.id) k4 c2 (rw (s1, s2) at h) in
      let c3 = count_statement d3 in
      let (d4, e4, s4) =
        exec_then-ok engine (drop_clusters org.id) last c3 (rw (s1, s2, s3) at h) in
      let c4 = count_statement d4 in
      let (d5, e5, s5) = exec-ok engine (drop_organization org.id) c4 (rw (s1, s2, s3, s4) at h) in
      rw (s1, s2, s3, s4, s5) (statements-IsGone org db e1 e2 e3 e4 e5)

  get_organization-ok :
      (id : String) (db : Db) {org : Organization}
      → (get_organization engine id db).0 ≡ ok org
      → first_row (keep (λ o. o.id == id) db.organizations) ≡ ok org
  unfolding get_organization query_row
  get_organization-ok id db h = elim (Bool-cases (engine.is_up db.sent)) [
    | inl up ↦ rw (up, get_organization) at h
    | inr down ↦ let no = rw (down, get_organization) at h in cc
  ]

  get_organization_counted :
      (id : String) (db : Db) → (get_organization engine id db).1 ≡ count_statement db
  unfolding get_organization query_row
  get_organization_counted id db = elim (Bool-cases (engine.is_up db.sent)) [
    | inl up ↦ rw (up, get_organization) refl
    | inr down ↦ rw (down, get_organization) refl
  ]

  -- The outcome of a deletion: nothing of the organization is left, or an error and all tables as
  -- they were.
  abbrev pub Outcome : String → Db → Result StoreError (Unit {0}) → Db → Type 0
  Outcome id db r db' =
      ((r ≡ ok tt)
        × ((org : Organization) × (first_row (keep (λ o. o.id == id) db.organizations) ≡ ok org)
            × IsGone org db'))
      ⊎ (((e : StoreError) × (r ≡ err e)) × (db' ≡ with_sent db db'))

  transaction-Outcome :
      (id : String) (org : Organization) (db : Db)
      → first_row (keep (λ o. o.id == id) db.organizations) ≡ ok org
      → Outcome id db
          (transaction engine (delete_organization_rows engine org) (count_statement db)).0
          (transaction engine (delete_organization_rows engine org) (count_statement db)).1
  transaction-Outcome id org db found =
      let m = delete_organization_rows engine org in
      let counted = count_statement db in
      elim (Result-cases (transaction engine m counted).0) [
        | inl (done, e) ↦
            let (fine, state) = transaction-ok engine m counted e in
            let gone = delete_organization_rows-IsGone org (count_statement counted) fine in
            inl (e, (org, found, rw state (IsGone-count_statement org _ gone)))
        | inr (x, e) ↦ inr ((x, e), transaction_kept engine m counted x e)
      ]

  -- A deletion of an organization leaves nothing of it, or fails and leaves all tables as they were.
  pub delete_organization-Outcome :
      (id : String) (db : Db)
      → Outcome id db (delete_organization engine id db).0 (delete_organization engine id db).1
  unfolding delete_organization
  delete_organization-Outcome id db = elim (Result-cases (get_organization engine id db).0) [
    | inl (org, e) ↦
        let step =
          bind_at (get_organization engine id)
            (λ found. transaction engine (delete_organization_rows engine found)) db e
          ∙ ap (transaction engine (delete_organization_rows engine org))
              (get_organization_counted id db) in
        subst (λ p. Outcome id db p.0 p.1) (sym step)
          (transaction-Outcome id org db (get_organization-ok id db e))
    | inr (x, e) ↦
        let step =
          bind_err (get_organization engine id)
            (λ found. transaction engine (delete_organization_rows engine found)) db e
          ∙ ap (λ counted. (err x, counted)) (get_organization_counted id db) in
        subst (λ p. Outcome id db p.0 p.1) (sym step) (inr ((x, refl), refl))
  ]
