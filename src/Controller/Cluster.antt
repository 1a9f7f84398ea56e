-- ===== src/Controller/Cluster.antt =====
-- internal/controller/clusterclaim_controller.go: the reconciler of ClusterClaims.
pub mod Defs
pub mod Validate
pub mod Provision
pub mod Capi
pub mod Addons
pub mod Kubeconfig
pub mod Steady
pub mod Deletion
pub mod Machine
pub mod Lifecycle
pub mod Attention
pub mod Ledger
pub mod Accounts
pub mod Books
