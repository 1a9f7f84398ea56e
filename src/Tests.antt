-- ===== src/Tests.antt =====
-- The theorems at concrete inputs.
mod World
mod Http
mod Startup
mod Cluster
mod Server
mod Life
mod Sites
mod Tenants
mod Rbac
mod Netbox
