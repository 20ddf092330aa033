-- ===== src/Orgdb/Bindings/Added.antt =====
-- What a call of internal/orgdb/crud.go does to the bindings.
use hyve.Prelude.{
  ◌||◌, String, List, ◌∷◌, ◌==◌, ◌≡◌, ◌∙◌, inl, inr, refl, ap, arith, Bool-cases, any,
}
use hyve.Prelude.State.{State}
use hyve.Orgdb.{Db, Binding, M, ◌>>=◌ as ◌>>>=◌, Engine, exec, settle, query_row}
use hyve.Orgdb.Organizations.Transactions.{Result-cases}
use hyve.Orgdb.Bindings.{
  create_binding, insert_binding, store_binding, get_binding_by_id, add_binding, is_dangling,
  clashes, is_half_scoped, with_subject_type,
}

abbrev pub Keeps : {A : Type 0} → State Db A → Type 0
Keeps m = (db : Db) → (m db).1.bindings ≡ db.bindings

-- What follows a call and keeps the bindings.
pub kept_after :
    {A B : Type 0} (m : M A) (f : A → M B) (db : Db)
    → ((a : A) → Keeps (f a))
    → ((m >>>= f) db).1.bindings ≡ (m db).1.bindings
kept_after m f db l = elim (Result-cases (m db).0) [
  | inl (a, e) ↦ rw (e, ◌>>>=◌) (l a (m db).1)
  | inr (x, e) ↦ rw (e, ◌>>>=◌) refl
]

-- What a call may do to the bindings: nothing, or add one.
pub data Adds (P : Binding → Type 0) (before after : List Binding) : Type 0 where
  same : after ≡ before → Adds P before after
  added : (b : Binding) → after ≡ b ∷ before → P b → Adds P before after

-- A binding of an identity to a role in a namespace.
abbrev pub Grants : String → String → String → Binding → Type 0
Grants ns role identity b = (b.namespace ≡ ns) × ((b.role ≡ role) × (b.identity ≡ identity))

module _ {P : Binding → Type 0} {before middle after : List Binding} where
  pub Adds_after : Adds P before middle → after ≡ middle → Adds P before after
  Adds_after (same k) e = same (e ∙ k)
  Adds_after (added b k p) e = added b (e ∙ k) p

  pub Adds_before : middle ≡ before → Adds P middle after → Adds P before after
  Adds_before e (same k) = same (k ∙ e)
  Adds_before e (added b k p) = added b (k ∙ ap (b ∷◌) e) p

pub Adds_weaken :
    {P Q : Binding → Type 0} {before after : List Binding}
    → Adds P before after
    → ((b : Binding) → P b → Q b)
    → Adds Q before after
Adds_weaken (same k) f = same k
Adds_weaken (added b k p) f = added b k (f b p)

module _ (engine : Engine) where
  insert_row :
      (b : Binding) (db : Db)
      → Adds (λ stored. stored ≡ b) db.bindings (exec engine (add_binding b) db).1.bindings
  unfolding exec settle
  insert_row b db = elim (Bool-cases (any (clashes b) db.bindings || is_dangling b db)) [
    | inl taken ↦ same (ground arith)
    | inr free ↦ elim (Bool-cases (engine.is_up db.sent)) [
      | inl up ↦ added b (ground arith) refl
      | inr down ↦ same (ground arith)
    ]
  ]

  store_binding-Adds :
      (b : Binding) (db : Db)
      → Adds (λ stored. stored ≡ b) db.bindings (store_binding engine b db).1.bindings
  unfolding store_binding get_binding_by_id query_row
  store_binding-Adds b db = Adds_after (insert_row b db) (
      kept_after (exec engine (add_binding b)) (λ done. get_binding_by_id engine b.id) db
        (λ done db'. ground arith))

  insert_binding-Adds :
      (b : Binding) (db : Db)
      → Adds
          (Grants b.namespace b.role b.identity)
          db.bindings
          (insert_binding engine b db).1.bindings
  unfolding insert_binding
  insert_binding-Adds b db = elim (Bool-cases (b.namespace == "")) [
    | inl e ↦ same (rw (e, insert_binding) refl)
    | inr named ↦ elim (Bool-cases (is_half_scoped b)) [
      | inl e ↦ same (rw (named, e, insert_binding) refl)
      | inr scoped ↦
          rw (named, scoped, insert_binding)
            (Adds_weaken (store_binding-Adds (with_subject_type b) db)
              (λ stored e. (ground arith, (ground arith, ground arith))))
    ]
  ]

  pub create_binding-Adds :
      (b : Binding) (db : Db)
      → Adds
          (Grants b.namespace b.role b.identity)
          db.bindings
          (create_binding engine b db).1.bindings
  unfolding create_binding
  create_binding-Adds b db = elim (Bool-cases (b.id == "")) [
    | inl e ↦
        rw (e, create_binding) (insert_binding-Adds (record b { id = engine.new_id db.sent }) db)
    | inr e ↦ rw (e, create_binding) (insert_binding-Adds b db)
  ]
