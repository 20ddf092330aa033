-- ===== src/Api/Token.antt =====
-- internal/api/token.go: access tokens. A time is a number of seconds. The packages for JSON,
-- base64 and HMAC are the parameter.
pub mod Issued
use hyve.Prelude.{
  ℕ, ◌+◌, String, Bool, true, false, not, Option, none, some, ◌==◌, if◌then◌else◌, ltb, Result, ok,
  err, ◌≡◌,
}
use hyve.Prelude.Text.{◌<>◌, cut_first, HasNo}

pub record TokenPayload : Type 0 where
  pub subject : String
  pub namespace : String
  pub expires : ℕ

pub record Codec : Type 0 where
  pub marshal : TokenPayload → Option String
  pub unmarshal : String → Option TokenPayload
  pub encode : String → String
  pub decode : String → Option String
  pub mac : String → String → String

-- What the encodings are relied on for.
pub record IsLossless (codec : Codec) : Type 0 where
  pub marshalled :
      (p : TokenPayload) → (s : String) × (codec.marshal p ≡ some s) × (codec.unmarshal s ≡ some p)
  pub decoded : (s : String) → codec.decode (codec.encode s) ≡ some s
  pub dotless : (s : String) → HasNo b'.' (codec.encode s)

pub data TokenError : Type 0 where
  malformed_token : TokenError
  malformed_payload : TokenError
  malformed_signature : TokenError
  invalid_signature : TokenError
  no_subject : TokenError
  token_expired : TokenError

abbrev pub access_token_ttl : ℕ
access_token_ttl = 28800

abbrev pub session_ttl : ℕ
session_ttl = 2592000

-- The checks of a payload whose signature is right.
unfoldable pub check_payload : ℕ → Option TokenPayload → Result TokenError (String × String)
check_payload now none = err malformed_payload
check_payload now (some payload) =
    if payload.subject == ""
    then err no_subject
    else if ltb payload.expires now
    then err token_expired
    else ok (payload.subject, payload.namespace)

module _ (codec : Codec) (key : String) where
  unfoldable pub sign : String → String
  sign = codec.mac key

  unfoldable pub sign_payload : TokenPayload → Option String
  unfolding sign
  sign_payload payload = elim (codec.marshal payload) [
    | none ↦ none
    | some json ↦ some (codec.encode json <> ("." <> codec.encode (sign json)))
  ]

  unfoldable pub issue_access_token : ℕ → String → String → Option String
  unfolding sign_payload
  issue_access_token now subject namespace =
      sign_payload
        (record { subject = subject; namespace = namespace; expires = now + access_token_ttl })

  -- The comparison of the signatures.
  unfoldable pub check_signature : ℕ → String → String → Result TokenError (String × String)
  unfolding sign check_payload
  check_signature now json signature =
      if signature == sign json
      then check_payload now (codec.unmarshal json)
      else err invalid_signature

  unfoldable pub verify_parts : ℕ → String × String → Result TokenError (String × String)
  unfolding check_signature
  verify_parts now (payload, signature) = elim (codec.decode payload) [
    | none ↦ err malformed_payload
    | some json ↦ elim (codec.decode signature) [
      | none ↦ err malformed_signature
      | some sig ↦ check_signature now json sig
    ]
  ]

  unfoldable pub verify_token : ℕ → String → Result TokenError (String × String)
  unfolding verify_parts
  verify_token now token = elim (cut_first b'.' token) [
    | none ↦ err malformed_token
    | some parts ↦ verify_parts now parts
  ]
