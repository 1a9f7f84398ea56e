-- ===== src/Http.antt =====
-- internal/netbox/client.go: the REST client of Netbox.
pub mod Bytes
pub mod Query
pub mod Json
pub mod Decode
pub mod Types
pub mod Client
