-- ===== src/Reconcile/Resources/Settled.antt =====
-- What a resource pass leaves in the definition.
use native.Mathlib.Omega.{arith}
use hyve.Prelude.{
  ℕ, ◌+◌, String, Bool, true, false, not, Option, none, Option-cases, inl, inr, List, [], ◌∷◌, ◌≡◌,
  refl, ◌==◌, ◌||◌, is_some, str_eq_self, str_eq_of_ne, String-cases, Result, ok, err,
}
use hyve.Prelude.Maps.{lookup, erase, lookup-insert, lookup-erase}
use hyve.Types.{ClusterDefinition, AppliedObject, ResourceRef}
use hyve.Lock.{LockFile}
use hyve.Reconcile.World.{Env, History}
use hyve.Reconcile.Host.{Host}
use hyve.Reconcile.Resources.{ResourceItem, Expansion, is_child, applied_keys_for}
use hyve.Reconcile.Resources.Loop.{
  Loop, Prepared, ResourceError, config_changed, Stage, conclude_apply, apply_drift, apply_item,
  delete_keys, delete_item, sync_item, step_item, item_loop, prepare, live_diff, remove_applied,
}
use hyve.Reconcile.Resources.Orphans.{has, has-applied_keys_for}
use hyve.Reconcile.Resources.Pass.{
  kept, prune_orphans, save, finish, reconcile_resources, first_changed, start,
}

module _ (host : Host) (env : Env) (lf : LockFile) where
  config_changed-conclude_apply :
      (item : ResourceItem) (p : Prepared) (l : Loop) (r : Result Stage (List AppliedObject))
      (h : History)
      → (conclude_apply host env lf item p l r h).0.1 ≡ none
      → config_changed host env lf p
          (lookup item.ref.name (conclude_apply host env lf item p l r h).0.0.applied_resources)
        ≡ false
  unfolding conclude_apply
  config_changed-conclude_apply item p l (err stage) h e = cc
  config_changed-conclude_apply item p l (ok objects) h e =
      grind (arith, lookup-insert, str_eq_self p.config_hash, str_eq_self item.ref.name)

  -- Once a drift is applied without an error, the resource's recorded hash is that of the applied
  -- configuration, so the configuration counts as changed no more.
  pub config_changed-apply_drift :
      (item : ResourceItem) (p : Prepared) (l : Loop) (h : History)
      → (apply_drift host env lf false item p l h).0.1 ≡ none
      → config_changed host env lf p
          (lookup item.ref.name (apply_drift host env lf false item p l h).0.0.applied_resources)
        ≡ false
  unfolding apply_drift
  config_changed-apply_drift item p l h e =
      config_changed-conclude_apply item p l _ (apply_item host env lf item p h).1 e

  step_item-same :
      (item : ResourceItem) (l : Loop) (h : History) → (step_item host env lf true item l h).0.0 ≡ l
  unfolding step_item delete_item sync_item prepare live_diff apply_drift
  step_item-same item l h = grind arith

  item_loop-same :
      (items : List ResourceItem) (l : Loop) (h : History)
      → (item_loop host env lf true items l h).0.0 ≡ l
  unfolding item_loop
  item_loop-same [] l h = refl
  item_loop-same (item ∷ items) l h = ground (
    arith,
    step_item-same item l h,
    item_loop-same items (step_item host env lf true item l h).0.0
        (step_item host env lf true item l h).1,
  )

  kept-none : (i : ℕ) (resources : List ResourceRef) → kept [] i resources ≡ resources
  unfolding kept
  kept-none i [] = refl
  kept-none i (res ∷ resources) = cc (kept-none (i + 1) resources)

  finish-same :
      (strict changed : Bool) (ex : Expansion) (cluster : ClusterDefinition) (l : Loop)
      (e : Option ResourceError) (h : History)
      → l ≡ start host env lf cluster changed
      → (finish host env lf strict true ex cluster (l, e) h).0.0 ≡ cluster
  unfolding finish prune_orphans save
  finish-same strict changed ex cluster l e h q = rw (q, kept-none 0 cluster.spec.resources) refl

  -- A dry run of a resource pass leaves the definition as it is.
  pub reconcile_resources-same :
      (cluster : ClusterDefinition) (strict : Bool) (h : History)
      → (reconcile_resources host env lf cluster strict true h).0.0 ≡ cluster
  unfolding reconcile_resources first_changed
  reconcile_resources-same cluster strict h =
      finish-same strict _ _ cluster _ _ _ (item_loop-same _ (start host env lf cluster _) h)

  delete_keys-gone :
      (keys : List String) (l : Loop) (h : History) (k : String)
      → (delete_keys host env lf keys l h).0.1 ≡ none
      → (has k keys || not (is_some (lookup k l.applied_resources))) ≡ true
      → is_some (lookup k (delete_keys host env lf keys l h).0.0.applied_resources) ≡ false
  unfolding delete_keys
  delete_keys-gone [] l h k e m = ground (arith, m)
  delete_keys-gone (key ∷ keys) l h k e m = elim (Option-cases (lookup key l.applied_resources)) [
    | inl n ↦ elim (String-cases key k) [
      | inl q ↦ grind (arith, q, e, m, n, delete_keys-gone keys l h k)
      | inr q ↦ ground (arith, e, m, n, str_eq_of_ne q, delete_keys-gone keys l h k)
    ]
    | inr (r, s) ↦ ground (
      arith,
      e,
      m,
      s,
      lookup-erase key k l.applied_resources,
      delete_keys-gone keys (record l { applied_resources = erase key l.applied_resources })
          (remove_applied host env lf key r h).1 k,
    )
  ]

  -- Once a resource that is marked for removal is deleted without an error, nothing of its name or
  -- below it is tracked any more.
  pub delete_item-gone :
      (item : ResourceItem) (l : Loop) (h : History) (key : String)
      → (delete_item host env lf false item l h).0.1 ≡ none
      → (key == item.ref.name || is_child item.ref.name key) ≡ true
      → is_some (lookup key (delete_item host env lf false item l h).0.0.applied_resources) ≡ false
  unfolding delete_item
  delete_item-gone item l h key e m = ground (
    arith,
    e,
    m,
    has-applied_keys_for item.ref.name key l.applied_resources,
    delete_keys-gone (applied_keys_for l.applied_resources item.ref.name) l h key,
  )
