-- ===== src/Lock/Ensure.antt =====
-- `EnsureResolvedWithToken` of internal/module/lock.go.
use hyve.Prelude.{String, ◌≡◌, Option, arith, ok}
use hyve.Prelude.Maps.{lookup-insert_self}
use hyve.Lock.{ResolvedModule, LockedModule, Disk, ensure_resolved}

-- Once a module is resolved it is locked: a second call, whatever its resolver answers, returns
-- the same entry and leaves the lock file as it is.
pub ensure_resolved_again :
    (resolve again : String → String → Option ResolvedModule) (source version : String)
    (before after : Disk) (entry : LockedModule)
    → ensure_resolved resolve source version before ≡ ok (entry, after)
    → ensure_resolved again source version after ≡ ok (entry, after)
unfolding ensure_resolved
ensure_resolved_again resolve again source version before after entry h =
    grind (arith, lookup-insert_self)
