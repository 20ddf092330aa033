-- ===== src/Api/Server/Granted.antt =====
-- What resolveAccess of internal/api/server.go grants to a request.
use hyve.Prelude.{
  ℕ, String, Bool, true, none, some, List, [], ◌∷◌, ◌==◌, ◌&&◌, ◌||◌, ◌≡◌, ◌≢◌, refl, sym, ◌∙◌,
  arith, any, keep, any-keep, any_mono, if◌then◌else◌, ok, Bool-cases, Option-cases, inl, inr,
  str_eq_self, ltb,
}
use hyve.Orgdb.{Db, Binding, query, count_statement, subject_type_local}
use hyve.Orgdb.Tables.{order_by, any-order_by}
use hyve.Orgdb.Users.{list_bindings_for_identity}
use hyve.Orgdb.Bindings.{best_of, role_priority}
use hyve.Api.Server.{
  Server, Request, granted, best_membership, is_superadmin, default_access, access_in,
  select_namespace, conclude_access, resolve_access, role_superadmin,
}

-- The best of some is one of them.
best_of-any :
    (rank : String → ℕ) (p : Binding → Bool) (xs : List Binding) (a b : Binding)
    → best_of rank xs (some a) ≡ some b
    → p b ≡ true
    → p a || any p xs ≡ true
unfolding best_of
best_of-any rank p [] a b h q = ground arith
best_of-any rank p (x ∷ xs) a b h q = elim (Bool-cases (ltb (rank a.role) (rank x.role))) [
  | inl e ↦ ground (arith, best_of-any rank p xs x b (rw e at h) q)
  | inr e ↦ ground (arith, best_of-any rank p xs a b (rw e at h) q)
]

best_of-ne_none :
    (rank : String → ℕ) (xs : List Binding) (a : Binding) → best_of rank xs (some a) ≢ none
unfolding best_of
best_of-ne_none rank [] a = λ h. cc
best_of-ne_none rank (x ∷ xs) a =
    best_of-ne_none rank xs (if ltb (rank a.role) (rank x.role) then x else a)

pub best_of_start :
    (rank : String → ℕ) (p : Binding → Bool) (xs : List Binding) (b : Binding)
    → best_of rank xs none ≡ some b
    → p b ≡ true
    → any p xs ≡ true
unfolding best_of
best_of_start rank p [] b h q = cc
best_of_start rank p (x ∷ xs) b h q = best_of-any rank p xs x b h q

best_membership-any :
    (ms : List Binding) (ns : String) (p : Binding → Bool) (b : Binding)
    → best_membership ms ns ≡ some b
    → p b ≡ true
    → any (λ c. c.namespace == ns && p c) ms ≡ true
unfolding best_membership
best_membership-any ms ns p b h q =
    sym (any-keep p (λ c. c.namespace == ns) ms)
    ∙ best_of_start role_priority p (keep (λ c. c.namespace == ns) ms) b h q

or_true : (b c : Bool) → c ≡ true → b || c ≡ true
or_true b c h = ground arith

true_or : (b c : Bool) → b ≡ true → b || c ≡ true
true_or b c h = ground arith

-- One of the bindings is that of a role in a namespace, or of a superadmin of the control plane who
-- has that role everywhere.
unfoldable pub is_entitled : String → List Binding → String → String → Bool
is_entitled control_plane ms ns role =
    any (λ b. b.namespace == ns && b.role == role) ms
    || (role == role_superadmin && is_superadmin control_plane ms)

has_role-is_entitled :
    (control_plane : String) (ms : List Binding) (ns role : String)
    → any (λ b. b.namespace == ns && b.role == role) ms ≡ true
    → is_entitled control_plane ms ns role ≡ true
unfolding is_entitled
has_role-is_entitled control_plane ms ns role h = true_or _ _ h

is_entitled-superadmin :
    (control_plane : String) (ms : List Binding) (ns : String)
    → is_superadmin control_plane ms ≡ true
    → is_entitled control_plane ms ns role_superadmin ≡ true
unfolding is_entitled
is_entitled-superadmin control_plane ms ns s = or_true _ _ s

best_membership-is_entitled :
    (control_plane : String) (ms : List Binding) (ns : String) (b : Binding)
    → best_membership ms ns ≡ some b
    → is_entitled control_plane ms ns b.role ≡ true
unfolding is_entitled
best_membership-is_entitled control_plane ms ns b h =
    true_or _ _ (best_membership-any ms ns (λ c. c.role == b.role) b h (str_eq_self b.role))

best_membership-ne_none :
    (m : Binding) (ms : List Binding) → best_membership (m ∷ ms) m.namespace ≢ none
unfolding best_membership best_of
best_membership-ne_none m ms =
    rw (str_eq_self m.namespace)
      (best_of-ne_none role_priority (keep (λ b. b.namespace == m.namespace) ms) m)

granted_eq : (a b ns role : String) → granted a b ≡ granted ns role → (a ≡ ns) × (b ≡ role)
granted_eq a b ns role h = (cc, cc)

default_access-is_entitled :
    (control_plane : String) (ms : List Binding) (ns role : String)
    → default_access ms ≡ granted ns role
    → is_entitled control_plane ms ns role ≡ true
unfolding default_access
default_access-is_entitled control_plane [] ns role h = cc
default_access-is_entitled control_plane (m ∷ ms) ns role h =
    elim (Option-cases (best_membership (m ∷ ms) m.namespace)) [
      | inl e ↦ absurd (best_membership-ne_none m ms e)
      | inr (b, e) ↦
          let own : b.namespace == b.namespace && b.role == b.role ≡ true =
            rw (str_eq_self b.namespace, str_eq_self b.role) refl in
          let found =
            any_mono (λ (c : Binding). c.namespace == b.namespace && c.role == b.role)
              (λ (c : Binding). c.namespace == m.namespace) (m ∷ ms)
              (best_membership-any (m ∷ ms) m.namespace
                (λ (c : Binding). c.namespace == b.namespace && c.role == b.role) b e own) in
          let (n, r) = granted_eq b.namespace b.role ns role (rw (e, default_access) at h) in
          rw (← n, ← r) (has_role-is_entitled control_plane (m ∷ ms) b.namespace b.role found)
    ]

-- What resolveAccess reads: the bindings of a local user.
abbrev pub bindings_of : String → Db → List Binding
bindings_of username db =
    keep (λ b. b.subject_type == subject_type_local && b.identity == username) db.bindings

module _ (server : Server) where
  access_in-is_entitled :
      (ms : List Binding) (selected ns role : String)
      → access_in server ms (is_superadmin server.namespace ms) selected ≡ granted ns role
      → is_entitled server.namespace ms ns role ≡ true
  unfolding access_in
  access_in-is_entitled ms selected ns role h =
      elim (Bool-cases (is_superadmin server.namespace ms)) [
        | inl s ↦
            let r : role_superadmin ≡ role = ground arith in
            rw (← r) (is_entitled-superadmin server.namespace ms ns s)
        | inr s ↦ elim (Bool-cases (selected == "")) [
          | inl e ↦
              default_access-is_entitled server.namespace ms ns role (rw (s, e, access_in) at h)
          | inr e ↦ elim (Option-cases (best_membership ms selected)) [
            | inl f ↦ ground arith
            | inr (b, f) ↦
                let (n, r) = granted_eq selected b.role ns role (rw (s, e, f, access_in) at h) in
                rw (← n, ← r) (best_membership-is_entitled server.namespace ms selected b f)
          ]
        ]
      ]

  is_entitled-order_by :
      (control_plane : String) (ms : List Binding) (ns role : String)
      → is_entitled control_plane (order_by (λ b. b.namespace) ms) ns role
        ≡ is_entitled control_plane ms ns role
  unfolding is_entitled is_superadmin
  is_entitled-order_by control_plane ms ns role =
      rw
        (
          any-order_by (λ b. b.namespace == ns && b.role == role) (λ b. b.namespace) ms,
          any-order_by (λ b. b.namespace == control_plane && b.role == role_superadmin)
              (λ b. b.namespace) ms,
        )
        refl

  conclude_access-is_entitled :
      (request : Request) (ms : List Binding) (ns role : String) (db : Db)
      → (conclude_access server request (ok ms) db).0 ≡ granted ns role
      → is_entitled server.namespace ms ns role ≡ true
  unfolding conclude_access
  conclude_access-is_entitled request [] ns role db h = cc
  conclude_access-is_entitled request (b ∷ ms) ns role db h =
      let superadmin = is_superadmin server.namespace (b ∷ ms) in
      access_in-is_entitled (b ∷ ms) (select_namespace server request superadmin db).0 ns role h

  -- A request is given a role in a namespace only if its user has a binding of that role there, or
  -- a superadmin's in the control plane and the role is superadmin.
  pub resolve_access-is_entitled :
      (request : Request) (username ns role : String) (db : Db)
      → (resolve_access server request username db).0 ≡ granted ns role
      → is_entitled server.namespace (bindings_of username db) ns role ≡ true
  unfolding resolve_access list_bindings_for_identity query
  resolve_access-is_entitled request username ns role db h =
      elim (Bool-cases (server.engine.is_up db.sent)) [
        | inl up ↦
            sym (is_entitled-order_by server.namespace (bindings_of username db) ns role)
            ∙ conclude_access-is_entitled request
                (order_by (λ b. b.namespace) (bindings_of username db)) ns role (count_statement db)
                (rw (up, resolve_access) at h)
        | inr down ↦ let refused = rw (down, resolve_access) at h in cc
      ]
