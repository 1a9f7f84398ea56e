-- ===== src/Kube.antt =====
-- The Kubernetes API as the controllers use it: the objects, and what client-go and
-- controller-runtime give, over an unknown state of the world.
mod Json
mod Objects
mod Client
pub use Json.*
pub use Objects.*
pub use Client.*
