-- ===== src/Types/Refs/RoundTrip.antt =====
-- The YAML forms of references, written and read back.
use hyve.Prelude.{◌≡◌, ◌≢◌, some, arith, ◌==◌, eq_iff, if◌then◌else◌}
use hyve.Types.{WorkflowRef, SecretKeyRef}
use hyve.Types.Refs.{marshal_ref, unmarshal_ref, marshal_key, unmarshal_key}

-- A reference is either local, a name alone, or remote, without a name.
pub record IsWellFormed (r : WorkflowRef) : Type 0 where
  pub local : r.source ≡ "" → r.path ≡ ""
  pub remote : r.source ≢ "" → r.name ≡ ""

-- A well-formed workflow reference that is written to YAML is read back unchanged.
pub unmarshal_ref-marshal_ref :
    (r : WorkflowRef) → IsWellFormed r → unmarshal_ref (marshal_ref r) ≡ some r
unfolding unmarshal_ref marshal_ref
unmarshal_ref-marshal_ref r h = ground (arith, eq_iff r.source "", eq_iff r.path "")

-- A secret key that is written to YAML is read back with the key that defaults to `env`.
pub unmarshal_key-marshal_key :
    (k : SecretKeyRef)
    → k.env ≢ ""
    → unmarshal_key (marshal_key k) ≡ some (record k { key = if k.key == "" then k.env else k.key })
unfolding unmarshal_key marshal_key
unmarshal_key-marshal_key k h = ground (arith, eq_iff k.key "", eq_iff k.key k.env, eq_iff k.env "")
