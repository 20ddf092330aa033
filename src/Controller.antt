-- ===== src/Controller.antt =====
-- internal/controller/reconciler.go: the reconcile loop of a ClusterDefinition custom resource.
pub mod Conditions
pub mod Api
pub mod Upsert
pub mod Resolve
pub mod Loop
pub mod Assumed
pub mod Provider
