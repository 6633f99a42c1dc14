-- ===== src/Authz.antt =====
-- pkg/authz: what an agent's identity may do in a namespace, against what it needs.
pub mod Excess
pub mod Laws
pub mod Granted
pub mod Lists
mod Reports
unfoldable pub use Reports.*
