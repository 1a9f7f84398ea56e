-- ===== src/Api.antt =====
-- The API group portal.smeltry.io/v1alpha1 (api/v1alpha1) and the object metadata that the
-- controllers read. Instants and durations are nanoseconds; counts and Netbox IDs are never
-- negative (`Minimum=1` on the counts, database keys for the IDs).
mod Meta
mod ClusterClaims
mod ServerClaims
mod AddonProfiles
mod SiteConfigs
mod AuditEvents
pub use Meta.*
unfoldable pub use ClusterClaims.*
unfoldable pub use ServerClaims.*
pub use AddonProfiles.*
pub use SiteConfigs.*
pub use AuditEvents.*
