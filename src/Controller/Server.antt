-- ===== src/Controller/Server.antt =====
-- internal/controller/serverclaim_controller.go: the ServerClaim controller.
pub mod Defs
pub mod Lifecycle
pub mod Steps
pub mod Machine
