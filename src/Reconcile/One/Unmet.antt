-- ===== src/Reconcile/One/Unmet.antt =====
-- A dependency that is not there is not met.
use native.Mathlib.Omega.{arith}
use hyve.Prelude.{
  String, Bool, true, false, not, none, some, List, [], ◌∷◌, ◌≡◌, refl, any, is_some, Option-cases,
  Bool-cases, inl, inr,
}
use hyve.Prelude.Maps.{Map}
use hyve.Types.{ClusterDefinition}
use hyve.Types.Refs.{is_empty}
use hyve.Lock.{LockFile}
use hyve.Reconcile.World.{History, loaded}
use hyve.Reconcile.Host.{Host}
use hyve.Reconcile.Refs.{resolve_cluster_ref}
use hyve.Reconcile.One.{is_dependency_active, first_unmet, first_unmet_if_loaded, unmet_dependency}

module _ (host : Host) (lf : LockFile) where
  is_dependency_active-none :
      (secrets_env : Map String) (h : History)
      → is_dependency_active host lf secrets_env none h ≡ (false, h)
  unfolding is_dependency_active
  is_dependency_active-none secrets_env h = refl

  empty-none :
      (names : List String) (p : String → Bool) → is_empty names ≡ true → any p names ≡ false
  empty-none [] p e = refl
  empty-none (name ∷ names) p e = cc

  first_unmet-missing :
      (defs : List ClusterDefinition) (def : ClusterDefinition) (secrets_env : Map String)
      (names : List String) (h : History)
      → any (λ name. not (is_some (resolve_cluster_ref defs def name))) names ≡ true
      → is_some (first_unmet host lf defs def secrets_env names h).0 ≡ true
  unfolding first_unmet
  first_unmet-missing defs def secrets_env [] h m = cc
  first_unmet-missing defs def secrets_env (name ∷ names) h m =
      elim (Option-cases (resolve_cluster_ref defs def name)) [
        | inl e ↦ ground (arith, e, is_dependency_active-none secrets_env h)
        | inr (d, e) ↦ ground (
          arith,
          e,
          m,
          first_unmet-missing defs def secrets_env names
              (is_dependency_active host lf secrets_env (resolve_cluster_ref defs def name) h).1,
        )
      ]

  -- If the definitions are loaded and no cluster answers to some name in dependsOn, the dependency
  -- counts as unmet, whatever the status of the others.
  pub unmet_dependency-missing :
      (defs : List ClusterDefinition) (def : ClusterDefinition) (secrets_env : Map String)
      (h : History)
      → host.load_cluster_definitions h ≡ some defs
      → any (λ name. not (is_some (resolve_cluster_ref defs def name))) def.spec.depends_on ≡ true
      → is_some (unmet_dependency host lf def secrets_env h).0 ≡ true
  unfolding unmet_dependency first_unmet_if_loaded
  unmet_dependency-missing defs def secrets_env h e m =
      elim (Bool-cases (is_empty def.spec.depends_on)) [
        | inl q ↦ ground (
          arith,
          m,
          empty-none def.spec.depends_on (λ name. not (is_some (resolve_cluster_ref defs def name)))
              q,
        )
        | inr q ↦ ground (
          arith,
          e,
          m,
          q,
          first_unmet-missing defs def secrets_env def.spec.depends_on (loaded ∷ h) m,
        )
      ]
