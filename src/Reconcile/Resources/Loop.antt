-- ===== src/Reconcile/Resources/Loop.antt =====
-- `reconcileResources` of internal/reconcile/resources.go: the loop over the items and the pass
-- over the orphans. What is only logged (drift counts and reasons) is left out.
use hyve.Prelude.{
  ℕ, String, Bool, true, false, not, Option, none, some, List, [], ◌∷◌, ◌==◌, if◌then◌else◌,
  is_some, Result, ok, err,
}
use hyve.Prelude.Maps.{Map, lookup, insert, erase}
use hyve.Types.{AppliedResource, AppliedObject, HelmSpec}
use hyve.Lock.{LockFile}
use hyve.Reconcile.World.{
  M, Env, ◌>>=◌, pure, call, ask, diffed, applied, uninstalled, objects_deleted, upgraded,
}
use hyve.Reconcile.Host.{Host, ResolvedResource}
use hyve.Reconcile.Resources.{ResourceItem, needs_apply, applied_keys_for, validate_resource_ref}

pub data Stage : Type 0 where
  expand remove validate resolve diff apply parse : Stage

-- Where the loop stopped, and at which resource.
pub data ResourceError : Type 0 where
  stopped : Stage → String → ResourceError

pub record Loop : Type 0 where
  pub applied_resources : Map AppliedResource
  pub remove_idx : List ℕ
  pub changed : Bool

-- The loop's variables, and the error that it breaks with.
abbrev pub Step : Type 0
Step = Loop × Option ResourceError

pub record Prepared : Type 0 where
  pub config_hash : String
  pub manifest : String
  pub namespace : String

abbrev prepared : String → Option (String × String) → Option Prepared
prepared namespace none = none
prepared namespace (some (hash, text)) =
    some (record { config_hash = hash; manifest = text; namespace = namespace })

abbrev of_resource : String → Option ResolvedResource → Option Prepared
of_resource namespace none = none
of_resource namespace (some r) =
    some (record { config_hash = r.sha256; manifest = r.text; namespace = namespace })

module _ (host : Host) (env : Env) (lf : LockFile) where
  unfoldable pub remove_applied : String → AppliedResource → M Bool
  remove_applied key r =
      if r.helm
      then call (host.helm_uninstall key r.namespace env) (λ _. uninstalled key)
      else call (host.kubectl_delete_objects r.objects env) (λ _. objects_deleted key)

  -- The loop over `appliedKeysFor`, outside a dry run.
  unfoldable pub delete_keys : List String → Loop → M Step
  unfolding remove_applied lookup erase
  delete_keys [] l = pure (l, none)
  delete_keys (key ∷ keys) l = elim (lookup key l.applied_resources) [
    | none ↦ delete_keys keys l
    | some r ↦ remove_applied key r >>= λ done. elim done [
      | true ↦ delete_keys keys (record l { applied_resources = erase key l.applied_resources })
      | false ↦ pure (l, some (stopped remove key))
    ]
  ]

  -- `delete: true`; a dry run only reports.
  unfoldable pub delete_item : Bool → ResourceItem → Loop → M Step
  unfolding delete_keys applied_keys_for
  delete_item true item l = pure (l, none)
  delete_item false item l =
      delete_keys (applied_keys_for l.applied_resources item.ref.name) l >>= λ (l', e). elim e [
        | some stop ↦ pure (l', some stop)
        | none ↦
            pure (record l' { remove_idx = item.orig_idx ∷ l'.remove_idx; changed = true }, none)
      ]

  -- Helm, secret, source, or a resource by name: the hash, the manifest and the namespace.
  unfoldable pub prepare : ResourceItem → M (Option Prepared)
  prepare item = elim item.ref.helm [
    | some h ↦ ask (λ w. prepared h.namespace (host.render_helm item.ref.name h env w))
    | none ↦ elim item.ref.secret [
      | some s ↦ ask (λ w. prepared s.namespace (host.render_secret item.ref.name s w))
      | none ↦
          if not (item.ref.source == "")
          then elim item.pre [
            | some r ↦ pure (of_resource item.ref.namespace (some r))
            | none ↦
                ask (λ w. of_resource item.ref.namespace (host.resolve_source item.ref.source lf w))
          ]
          else ask (λ w. elim (host.get_resource item.ref.name w) [
            | none ↦ none
            | some text ↦ prepared item.ref.namespace (some (host.sha256 text, text))
          ])
    ]
  ]

  -- `kubectl diff`, for a resource that has been applied before.
  unfoldable pub live_diff : String → Prepared → Option AppliedResource → M (Option Bool)
  live_diff name p none = pure (some false)
  live_diff name p (some r) = call (host.kubectl_diff p.manifest p.namespace env) (λ _. diffed name)

  unfoldable pub apply_helm : String → HelmSpec → M (Result Stage (List AppliedObject))
  apply_helm name h = call (host.helm_upgrade_install name h env) (λ _. upgraded name) >>= λ done.
      elim done [
        | false ↦ pure (err apply)
        | true ↦ ask (λ w. elim (host.helm_get_manifest name h.namespace env w) [
          | none ↦ err apply
          | some text ↦ elim (host.parse_manifest_objects text h.namespace) [
            | none ↦ err parse
            | some objects ↦ ok objects
          ]
        ])
      ]

  unfoldable pub apply_manifest : String → Prepared → M (Result Stage (List AppliedObject))
  apply_manifest name p =
      call (host.kubectl_apply p.manifest p.namespace env) (λ _. applied name) >>= λ done.
      elim done [
        | false ↦ pure (err apply)
        | true ↦ elim (host.parse_manifest_objects p.manifest p.namespace) [
          | none ↦ pure (err parse)
          | some objects ↦ pure (ok objects)
        ]
      ]

  unfoldable pub apply_item : ResourceItem → Prepared → M (Result Stage (List AppliedObject))
  unfolding apply_helm apply_manifest
  apply_item item p = elim item.ref.helm [
    | some h ↦ apply_helm item.ref.name h
    | none ↦ apply_manifest item.ref.name p
  ]

  -- What is recorded of an applied resource.
  abbrev record_applied : ResourceItem → Prepared → List AppliedObject → String → Loop → Loop
  record_applied item p objects time l = record l {
    applied_resources =
        insert item.ref.name
          (record {
            source_sha256 = p.config_hash;
            helm = is_some item.ref.helm;
            namespace = p.namespace;
            applied_at = time;
            objects = objects;
          })
          l.applied_resources;
    changed = true;
  }

  abbrev pub config_changed : Prepared → Option AppliedResource → Bool
  config_changed p none = true
  config_changed p (some r) = not (r.source_sha256 == p.config_hash)

  -- What follows the apply.
  unfoldable pub conclude_apply :
      ResourceItem → Prepared → Loop → Result Stage (List AppliedObject) → M Step
  conclude_apply item p l (err stage) = pure (l, some (stopped stage item.ref.name))
  conclude_apply item p l (ok objects) =
      ask (λ w. (record_applied item p objects (host.now w) l, none))

  -- From a detected drift on; a dry run stops here.
  unfoldable pub apply_drift : Bool → ResourceItem → Prepared → Loop → M Step
  unfolding conclude_apply
  apply_drift true item p l = pure (l, none)
  apply_drift false item p l = apply_item item p >>= λ result. conclude_apply item p l result

  -- An item that is not marked for removal.
  unfoldable pub sync_item : Bool → ResourceItem → Loop → M Step
  unfolding prepare live_diff apply_drift needs_apply validate_resource_ref
  sync_item dry_run item l =
      if not (validate_resource_ref item.ref)
      then pure (l, some (stopped validate item.ref.name))
      else prepare item >>= λ found. elim found [
        | none ↦ pure (l, some (stopped resolve item.ref.name))
        | some p ↦
            live_diff item.ref.name p (lookup item.ref.name l.applied_resources) >>= λ answer.
            elim answer [
              | none ↦ pure (l, some (stopped diff item.ref.name))
              | some drifted ↦
                  if needs_apply (config_changed p (lookup item.ref.name l.applied_resources))
                    drifted
                  then apply_drift dry_run item p l
                  else pure (l, none)
            ]
      ]

  -- The body of `itemLoop`.
  unfoldable pub step_item : Bool → ResourceItem → Loop → M Step
  unfolding delete_item sync_item
  step_item dry_run item l =
      if item.ref.delete then delete_item dry_run item l else sync_item dry_run item l

  -- `itemLoop`: it breaks at the first error.
  unfoldable pub item_loop : Bool → List ResourceItem → Loop → M Step
  item_loop dry_run [] l = pure (l, none)
  item_loop dry_run (item ∷ items) l = step_item dry_run item l >>= λ (l', e). elim e [
    | some stop ↦ pure (l', some stop)
    | none ↦ item_loop dry_run items l'
  ]

  -- The orphan pass, with `strictResourceDelete` and outside a dry run; a failure is only logged.
  unfoldable pub prune : List String → Loop → M Loop
  unfolding remove_applied
  prune [] l = pure l
  prune (key ∷ keys) l = elim (lookup key l.applied_resources) [
    | none ↦ prune keys l
    | some r ↦ remove_applied key r >>= λ done. prune keys (
        if done
        then record l { applied_resources = erase key l.applied_resources; changed = true }
        else l)
  ]
