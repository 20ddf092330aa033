-- ===== src/Reconcile.antt =====
-- internal/reconcile: the engine that brings a cluster to what its definition says.
pub mod World
pub mod Host
pub mod Refs
pub mod Locked
pub mod Resources
pub mod Hooks
pub mod Mgmt
pub mod Cluster
pub mod Dispatch
pub mod One
pub mod All
pub mod Traces
