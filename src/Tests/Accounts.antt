-- ===== src/Tests/Accounts.antt =====
-- The theorems on internal/orgdb and internal/api on concrete inputs, and runs of them.
use hyve.Prelude.{
  ◌==◌, ℕ, ◌+◌, String, Bool, true, false, Option, none, some, [], ◌∷◌, ◌≡◌, ◌≢◌, refl, ok, err,
  ltb, if◌then◌else◌, ne_of_differ, any, keep, map,
}
use hyve.Orgdb.{Db, Engine}
use hyve.Orgdb.Organizations.{delete_organization}
use hyve.Orgdb.Organizations.Deleted.{Outcome, delete_organization-Outcome}
use hyve.Api.Token.{issue_access_token, verify_token, access_token_ttl, session_ttl, token_expired}
use hyve.Api.Token.Issued.{verify_token-issue_access_token}
use hyve.Api.Server.{Server, Request, refuse, resolve_access}
use hyve.Api.Server.Granted.{is_entitled, bindings_of, resolve_access-is_entitled}
use hyve.Api.Auth.{
  ResetPasswordRequest, handle_reset_password, handle_logout, handle_refresh, issue_session,
}
use hyve.Api.Auth.Resets.{handle_reset_password_again}
use hyve.Api.Auth.Sessions.{
  IsRandom, renewed, handle_refresh-handle_logout, handle_refresh-issue_session,
}
use hyve.Orgdb.Bindings.Added.{Adds}
use hyve.Api.Accounts.{Caller}
use hyve.Api.Accounts.Creation.{CreateAccountRequest, handle_create_account}
use hyve.Api.Accounts.Creation.Granting.{IsOrdinary, handle_create_account-IsOrdinary}
use hyve.Api.Accounts.Changes.{handle_update_account_password}
use hyve.Api.Accounts.Changes.Sole.{IsConfined, handle_update_account_password-IsConfined}
use hyve.Api.Accounts.Update.{UpdateAccountRequest, handle_update_account}
use hyve.Api.Accounts.Update.Promoted.{is_super, is_super-handle_update_account}
use hyve.Api.Naming.{join_environment_name, resolve_create_name, resolve_addressed_name}
use hyve.Api.Naming.Addressed.{resolve_addressed_name-resolve_create_name}
use hyve.Tests.Codecs.{codec, codec_IsLossless}

abbrev engine : Engine
engine = record { is_up = λ n. true; new_id = λ n. "id" }

abbrev server : Server
server = record {
  engine = engine;
  namespace = "hyve";
  signing_key = "key";
  codec = codec;
  hash_password = λ password. some password;
  verify_password = λ hash password. true;
  hash_session_secret = λ secret. secret;
  random = λ n. some "secret";
  trim_space = λ text. text;
}

abbrev db : Db
db = record {
  users =
      record {
        id = "u1";
        username = "ann";
        email = some "ann@example.com";
        password_hash = some "old";
      }
      ∷ [];
  bindings =
      record {
        id = "b1";
        namespace = "acme";
        organization_id = some "o1";
        environment_id = none;
        subject_type = "local";
        identity = "ann";
        role = "admin";
        password_hash = none;
        email = none;
      }
      ∷ [];
  sessions =
      record {
        id = "s1";
        subject = "ann";
        tenant_namespace = "acme";
        token_hash = "x";
        expires_at = 100;
      }
      ∷ [];
  reset_tokens = record { id = "t1"; user_id = "u1"; token_hash = "code"; expires_at = 100 } ∷ [];
  organizations =
      record {
        id = "o1";
        name = "acme";
        namespace = "acme";
        plan = "";
        metadata = "";
        reconciling_cluster_id = none;
        pending_deletion = false;
      }
      ∷ [];
  environments = record { id = "e1"; organization_id = "o1"; name = "default"; metadata = "" } ∷ [];
  reconciling_clusters = [];
  mails = [];
  sent = 0;
}

delete_organization-Outcome_example :
    Outcome engine "o1" db
      (delete_organization engine "o1" db).0
      (delete_organization engine "o1" db).1
delete_organization-Outcome_example = delete_organization-Outcome engine "o1" db

verify_token-issue_access_token_example :
    (token : String) × (issue_access_token codec "key" 5 "ann" "acme" ≡ some token)
    × (verify_token codec "key" 6 token
        ≡ (if ltb (5 + access_token_ttl) 6 then err token_expired else ok ("ann", "acme")))
verify_token-issue_access_token_example =
    verify_token-issue_access_token codec codec_IsLossless "key" "ann" "acme" 5 6
      (ne_of_differ refl)

abbrev request : Request
request = record { organization = "acme"; act_as = ""; token_namespace = none }

resolve_access-is_entitled_example : is_entitled "hyve" (bindings_of "ann" db) "acme" "admin" ≡ true
unfolding resolve_access
resolve_access-is_entitled_example =
    resolve_access-is_entitled server request "ann" "acme" "admin" db refl

abbrev reset : ResetPasswordRequest
reset = record { email = "ann@example.com"; token = "code"; new_password = "new" }

handle_reset_password_again_example :
    (handle_reset_password server 60
      (some reset)
      (handle_reset_password server 50 (some reset) db).1).0
    ≡ refuse 400
unfolding handle_reset_password
handle_reset_password_again_example =
    handle_reset_password_again server (λ n. refl) reset reset 50 60 db refl refl

handle_refresh-handle_logout_example :
    (handle_refresh server 60 (some "s1.x") (handle_logout server 50 (some "s1.x") db).1).0
    ≡ refuse 401
unfolding handle_logout hyve.Prelude.Text.cut_first
handle_refresh-handle_logout_example =
    handle_refresh-handle_logout server "s1.x" "s1" "x" 50 60 db refl refl

server-IsRandom : IsRandom server
server-IsRandom = record {
  dotless = λ n. (λ e. cc, (λ e. cc, tt));
  named = λ n. ne_of_differ refl;
  secret = λ n s e empty. let same : "secret" ≡ "" = cc in ne_of_differ refl same;
}

handle_refresh-issue_session_example :
    (handle_refresh server 60 (some "id.secret") (issue_session server 50 "ann" "acme" db).1).0
    ≡ (if ltb (50 + session_ttl) 60 then refuse 401 else renewed server 60 "ann" "acme")
unfolding issue_session
handle_refresh-issue_session_example =
    handle_refresh-issue_session server "ann" "acme" 50 60 db server-IsRandom refl refl

nothing_exists : String → String → Bool
nothing_exists namespace name = false

resolve_addressed_name-resolve_create_name_example :
    (resolve_addressed_name engine nothing_exists "acme" "" "web" db).0 ≡ "default-web"
unfolding resolve_create_name nothing_exists
resolve_addressed_name-resolve_create_name_example =
    resolve_addressed_name-resolve_create_name engine (λ n. refl) nothing_exists "acme" "" "web" db
      db refl (ne_of_differ refl) refl refl refl

-- Two environments that join to one name.
one_name : join_environment_name "a" "b-c" ≡ join_environment_name "a-b" "c"
unfolding join_environment_name
one_name = refl

abbrev ann : Caller
ann = record { username = "ann"; role = "admin"; namespace = "acme" }

abbrev account : CreateAccountRequest
account = record {
  username = "bob";
  password = "secret";
  role = "read-only";
  email = "bob@example.com";
  namespace = "other";
  environment = "";
}

handle_create_account-IsOrdinary_example :
    Adds
      (IsOrdinary server ann)
      db.bindings
      (handle_create_account server ann (some account) db).1.bindings
handle_create_account-IsOrdinary_example =
    handle_create_account-IsOrdinary server ann account db (ne_of_differ refl)

-- The account is created, in the namespace of the admin.
created :
    map
      (λ b. b.identity)
      (keep
        (λ b. b.namespace == "acme")
        (handle_create_account server ann (some account) db).1.bindings)
    ≡ "bob" ∷ "ann" ∷ []
unfolding handle_create_account hyve.Prelude.Text.cut_first
created = refl

-- With bob, who is a member of the namespace of the admin alone.
abbrev with_bob : Db
with_bob = (handle_create_account server ann (some account) db).1

handle_update_account_password-IsConfined_example :
    IsConfined server "bob" "acme" with_bob
      (handle_update_account_password server ann "bob"
        (some (record { current_password = ""; new_password = "new password" }))
        with_bob).1
unfolding hyve.Api.Accounts.tenant_namespace
handle_update_account_password-IsConfined_example =
    handle_update_account_password-IsConfined server ann "bob"
      (record { current_password = ""; new_password = "new password" }) with_bob (ne_of_differ refl)
      (ne_of_differ refl)

-- With a superadmin of the control plane.
abbrev with_root : Db
with_root = record db {
  bindings =
      record {
        id = "b0";
        namespace = "hyve";
        organization_id = none;
        environment_id = none;
        subject_type = "local";
        identity = "root";
        role = "superadmin";
        password_hash = none;
        email = none;
      }
      ∷ db.bindings;
}

abbrev new_email : UpdateAccountRequest
new_email = record { role = none; email = some "a@example.com"; namespace = ""; environment = "" }

is_super-handle_update_account_example : is_super "root" with_root.bindings ≡ true
unfolding handle_update_account hyve.Prelude.Text.cut_first
is_super-handle_update_account_example =
    is_super-handle_update_account server ann "ann" new_email with_root "root" (ne_of_differ refl)
      refl

-- The password of bob is set.
bob_set :
    map
      (λ u. u.password_hash)
      (handle_update_account_password server ann "bob"
        (some (record { current_password = ""; new_password = "new password" }))
        with_bob).1.users
    ≡ some "new password" ∷ some "old" ∷ []
unfolding handle_update_account_password handle_create_account hyve.Prelude.Text.cut_first
    hyve.Api.Accounts.tenant_namespace
bob_set = refl
