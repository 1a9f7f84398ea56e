-- ===== src/Controller.antt =====
-- internal/controller: the reconcilers.
pub mod History
pub mod Reply
pub mod Attention
pub mod Utility
pub mod Audit
pub mod Addresses
pub mod Purge
pub mod Sites
pub mod Tenants
pub mod Cluster
pub mod Server
