-- ===== src/Api/Server.antt =====
-- internal/api/server.go and identity.go: who a request comes from, and what it may reach. A server
-- has a store. The log and the texts of errors are left out, and so is the store's `sent` of the
-- read by email.Send, whose call is noted in `mails`.
pub mod Granted
use hyve.Prelude.{
  ℕ, String, Bool, true, false, not, Option, none, some, List, [], ◌∷◌, ◌++◌, ◌==◌, ◌&&◌, ◌||◌,
  if◌then◌else◌, any, Result, ok, err, keep,
}
use hyve.Prelude.State.{State, ◌>>=◌, pure}
use hyve.Orgdb.{Db, Binding, User, Mail, StoreError, Engine, not_found, failed, subject_type_local}
use hyve.Orgdb.Users.{get_user_by_username, get_user_by_email, list_bindings_for_identity}
use hyve.Orgdb.Organizations.{get_organization_by_name}
use hyve.Orgdb.Bindings.{best_of, role_priority}
use hyve.Api.Token.{Codec, verify_token}

-- The packages for passwords, hashes and random texts; `random` is asked at the number of
-- statements that were sent.
pub record Server : Type 0 where
  pub engine : Engine
  pub namespace : String
  pub signing_key : String
  pub codec : Codec
  pub hash_password : String → Option String
  pub verify_password : String → String → Bool
  pub hash_session_secret : String → String
  pub random : ℕ → Option String
  pub trim_space : String → String

-- writeJSON with 200, or writeError with a status.
pub data Response (A : Type 0) : Type 0 where
  reply : A → Response A
  refuse : ℕ → Response A

abbrev pub role_superadmin : String
role_superadmin = "superadmin"

abbrev pub role_admin : String
role_admin = "admin"

abbrev pub send_mail : String → String → State Db (Unit {0})
send_mail to template db =
    (tt, record db { mails = record { to = to; template = template } ∷ db.mails })

-- requireAuth, on the header after "Bearer ": the username and the namespace of the token.
unfoldable pub require_auth : Server → ℕ → Option String → Option (String × String)
unfolding verify_token
require_auth server now none = none
require_auth server now (some token) =
    elim (verify_token server.codec server.signing_key now token) [
      | ok who ↦ some who
      | err e ↦ none
    ]

-- bestMembership; roleRank is rolePriority.
unfoldable pub best_membership : List Binding → String → Option Binding
unfolding best_of role_priority
best_membership memberships namespace =
    best_of role_priority (keep (λ b. b.namespace == namespace) memberships) none

-- The loop over the memberships.
unfoldable pub is_superadmin : String → List Binding → Bool
is_superadmin control_plane = any (λ b. b.namespace == control_plane && b.role == role_superadmin)

-- The headers of a request, and the namespace of its token.
pub record Request : Type 0 where
  pub organization : String
  pub act_as : String
  pub token_namespace : Option String

-- What a request is given: a namespace and a role in it, or a status.
pub data Access : Type 0 where
  granted : String → String → Access
  denied : ℕ → Access

-- The memberships of an identity that selected no namespace; `[]` was refused before.
unfoldable pub default_access : List Binding → Access
unfolding best_membership
default_access [] = denied 401
default_access (b ∷ memberships) = elim (best_membership (b ∷ memberships) b.namespace) [
  | none ↦ granted "" ""
  | some best ↦ granted best.namespace best.role
]

module _ (server : Server) where
  unfoldable pub find_user_for_login : String → State Db (Result StoreError User)
  unfolding get_user_by_username get_user_by_email
  find_user_for_login identifier = get_user_by_username server.engine identifier >>= λ found.
      elim found [ ok u ↦ pure (ok u) | err e ↦ get_user_by_email server.engine identifier ]

  unfoldable pub resolve_login_namespace : String → State Db String
  unfolding get_organization_by_name
  resolve_login_namespace ns = get_organization_by_name server.engine ns >>= λ found. elim found [
    | ok org ↦ pure org.namespace
    | err e ↦ pure ns
  ]

  -- The namespace that the request selects, "" for none.
  unfoldable pub select_namespace : Request → Bool → State Db String
  unfolding resolve_login_namespace
  select_namespace request superadmin =
      let by_header = resolve_login_namespace (server.trim_space request.organization) in
      if not (server.trim_space request.organization == "")
      then by_header
      else if not (request.act_as == "") && superadmin
      then pure request.act_as
      else elim request.token_namespace [ none ↦ pure "" | some ns ↦ pure ns ]

  unfoldable pub access_in : List Binding → Bool → String → Access
  unfolding best_membership default_access
  access_in memberships superadmin selected =
      if not (selected == "")
      then if superadmin
        then granted selected role_superadmin
        else elim (best_membership memberships selected) [
          | some best ↦ granted selected best.role
          | none ↦ denied 403
        ]
      else if superadmin
      then granted server.namespace role_superadmin
      else default_access memberships

  -- The part of resolveAccess after the memberships are listed.
  unfoldable pub conclude_access : Request → Result StoreError (List Binding) → State Db Access
  unfolding is_superadmin select_namespace access_in
  conclude_access request (err e) = pure (denied 500)
  conclude_access request (ok []) = pure (denied 401)
  conclude_access request (ok (b ∷ memberships)) =
      let superadmin = is_superadmin server.namespace (b ∷ memberships) in
      select_namespace request superadmin >>= λ selected.
      pure (access_in (b ∷ memberships) superadmin selected)

  unfoldable pub resolve_access : Request → String → State Db Access
  unfolding list_bindings_for_identity conclude_access
  resolve_access request username =
      list_bindings_for_identity server.engine subject_type_local username
      >>= conclude_access request

-- RequireRole: an admin's permission is a superadmin's too.
unfoldable pub permits : List String → String → Bool
permits [] role = false
permits (a ∷ allowed) role =
    role == a || (a == role_admin && role == role_superadmin || permits allowed role)
