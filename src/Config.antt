-- ===== src/Config.antt =====
-- internal/config: the Netbox client that the reconcilers share, and the watcher that renews it.
pub mod Holder
pub mod Watcher
