-- ===== src/ControlPlane.antt =====
-- pkg/primaza/controlplane: what the control plane writes into the worker clusters.
mod Bindings
mod Classes
pub mod Naming
mod Agents
mod Namespaces
pub mod Names
pub mod Visits
unfoldable pub use Bindings.*
unfoldable pub use Classes.*
unfoldable pub use Agents.*
unfoldable pub use Namespaces.*
