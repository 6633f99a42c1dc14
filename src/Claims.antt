-- ===== src/Claims.antt =====
-- controllers/serviceclaim_controller.go: the handler of service claims.
mod Matching
mod Status
mod Push
mod Process
mod Handler
pub mod Subset
pub mod Choice
pub mod Binding
pub mod Processed
unfoldable pub use Matching.*
unfoldable pub use Status.*
unfoldable pub use Push.*
unfoldable pub use Process.*
unfoldable pub use Handler.*
