-- ===== src/Registered.antt =====
-- controllers/registeredservice_controller.go: the handler of registered services.
mod Catalogs
mod Health
pub mod Entries
pub mod CatalogLaws
pub mod ReconcileLaws
pub mod StateLaws
unfoldable pub use Catalogs.*
unfoldable pub use Health.*
