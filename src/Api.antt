-- ===== src/Api.antt =====
-- api/v1alpha1: the custom resources, and what the program reads of the built-in ones.
mod Meta
mod Services
mod Claims
mod Bindings
mod Classes
mod Environments
pub mod Strategy
unfoldable pub use Meta.*
unfoldable pub use Services.*
unfoldable pub use Claims.*
unfoldable pub use Bindings.*
unfoldable pub use Classes.*
unfoldable pub use Environments.*
