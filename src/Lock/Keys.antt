-- ===== src/Lock/Keys.antt =====
-- `LockKey` and `splitLockKey` of internal/module/lock.go.
use text.Mathlib.TextLemmas.{nil-append, cons-append}
use hyve.Prelude.{String, ◌≡◌, refl, sym, ap, ◌∙◌}
use hyve.Prelude.Text.{◌<>◌, HasNo, cut_last-append}
use hyve.Lock.{lock_key, split_lock_key}

at_version : (version : String) → ("@" <> version) ≡ String.◌∷◌ "@" version
at_version version = rw cons-append (rw nil-append refl)

-- A lock key is split back into the source and the version that it was made of, if the version
-- has no "@" in it; the source may have some.
pub split_lock_key-lock_key :
    (source version : String)
    → HasNo b'@' version
    → split_lock_key (lock_key source version) ≡ (source, version)
unfolding split_lock_key lock_key
split_lock_key-lock_key source version h =
    rw (at_version version, split_lock_key, cut_last-append b'@' "@" source version refl h)

-- Two lock keys of versions without "@" are equal only if both their sources and their versions
-- are.
pub lock_key-injective :
    (s v s' v' : String)
    → HasNo b'@' v
    → HasNo b'@' v'
    → lock_key s v ≡ lock_key s' v'
    → (s ≡ s') × (v ≡ v')
lock_key-injective s v s' v' h h' e =
    let p =
      sym (split_lock_key-lock_key s v h)
      ∙ ap split_lock_key e
      ∙ split_lock_key-lock_key s' v' h' in
    (ap (λ (q : String × String). q.0) p, ap (λ (q : String × String). q.1) p)
