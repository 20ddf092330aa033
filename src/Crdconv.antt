-- ===== src/Crdconv.antt =====
-- internal/crdconv: the conversions between the custom resource and the shared shapes.
-- Forward.antt and Reverse.antt are clusterdefinition.go and totypes_reverse.go.
mod Forward
mod Reverse
pub mod RoundTrip
unfoldable pub use Forward.*
unfoldable pub use Reverse.*
