-- ===== src/Netbox.antt =====
-- internal/netbox: the data of the Netbox API, and the interface that the reconcilers call.
mod Types
mod Iface
pub mod Fake
unfoldable pub use Types.*
pub use Iface.*
