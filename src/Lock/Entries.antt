-- ===== src/Lock/Entries.antt =====
-- Reading and writing entries of internal/module/lock.go.
use hyve.Prelude.{String, ◌≡◌, refl, none, some, arith, eq_iff, ◌==◌, if◌then◌else◌, ◌&&◌}
use hyve.Prelude.Text.{HasNo}
use hyve.Prelude.Maps.{lookup-insert, lookup-erase}
use hyve.Lock.{LockFile, LockedModule, lock_key, get_locked, set_locked, remove_locked}
use hyve.Lock.Keys.{lock_key-injective}

same_key :
    (s v s' v' : String)
    → HasNo b'@' v
    → HasNo b'@' v'
    → (lock_key s v == lock_key s' v') ≡ (s == s' && v == v')
same_key s v s' v' h h' = ground (
  arith,
  eq_iff (lock_key s v) (lock_key s' v'),
  eq_iff s s',
  eq_iff v v',
  lock_key-injective s v s' v' h h',
)

module _ (s v s' v' : String) (lf : LockFile) (h : HasNo b'@' v) (h' : HasNo b'@' v') where
  -- Locking a module is seen under its own source and version, and changes the entry of no other
  -- source or version, as long as no version has an "@".
  pub get_locked-set_locked :
      (m : LockedModule)
      → get_locked (set_locked lf s v m) s' v'
        ≡ (if s == s' && v == v' then some m else get_locked lf s' v')
  unfolding get_locked set_locked
  get_locked-set_locked m = rw (lookup-insert, same_key s v s' v' h h') refl

  -- Removing a module removes its own entry and no other.
  pub get_locked-remove_locked :
      get_locked (remove_locked lf s v) s' v'
      ≡ (if s == s' && v == v' then none else get_locked lf s' v')
  unfolding get_locked remove_locked
  get_locked-remove_locked = rw (lookup-erase, same_key s v s' v' h h') refl
