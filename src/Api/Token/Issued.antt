-- ===== src/Api/Token/Issued.antt =====
-- An access token that was issued.
use hyve.Prelude.{
  ℕ, ◌+◌, String, some, ◌≡◌, ◌≢◌, refl, arith, if◌then◌else◌, ltb, ok, err, str_eq_of_ne,
  str_eq_self,
}
use hyve.Prelude.Text.{◌<>◌, append_dot, cut_first-append}
use hyve.Api.Token.{
  Codec, IsLossless, TokenPayload, sign, sign_payload, issue_access_token, check_payload,
  check_signature, verify_parts, verify_token, access_token_ttl, token_expired,
}

check_payload_named :
    (later : ℕ) (p : TokenPayload)
    → p.subject ≢ ""
    → check_payload later (some p)
      ≡ (if ltb p.expires later then err token_expired else ok (p.subject, p.namespace))
unfolding check_payload
check_payload_named later p named = rw (str_eq_of_ne named) refl

module _ (codec : Codec) (lossless : IsLossless codec) where
  verify_parts-sign :
      (key json : String) (later : ℕ)
      → verify_parts codec key later (codec.encode json, codec.encode (sign codec key json))
        ≡ check_payload later (codec.unmarshal json)
  unfolding verify_parts check_signature
  verify_parts-sign key json later = ground (
    arith,
    lossless.decoded json,
    lossless.decoded (sign codec key json),
    str_eq_self (sign codec key json),
  )

  -- A token that was issued for a user names that user and the namespace until eight hours have
  -- passed, and is expired from then on.
  pub verify_token-issue_access_token :
      (key subject namespace : String) (now later : ℕ)
      → subject ≢ ""
      → (token : String) × (issue_access_token codec key now subject namespace ≡ some token)
        × (verify_token codec key later token ≡ (
            if ltb (now + access_token_ttl) later
            then err token_expired
            else ok (subject, namespace)))
  unfolding issue_access_token sign_payload verify_token
  verify_token-issue_access_token key subject namespace now later named =
      let p : TokenPayload = record {
        subject = subject;
        namespace = namespace;
        expires = now + access_token_ttl;
      } in
      let (json, written, read) = lossless.marshalled p in
      (
        codec.encode json <> ("." <> codec.encode (sign codec key json)),
        rw (written, issue_access_token, sign_payload) refl,
        rw (append_dot (codec.encode (sign codec key json))) (
            ground (
              arith,
              cut_first-append b'.' "." (codec.encode json) (codec.encode (sign codec key json))
                  refl (lossless.dotless json),
              verify_parts-sign key json later,
              read,
              check_payload_named later p named,
            )),
      )
