-- ===== src/Effect.antt =====
-- Go functions that call the Kubernetes API, Netbox and the clock: state passing over an unknown
-- world. Beside its result a function gives the calls that it made, in order, with what they
-- returned where that matters to a caller of the API.
mod Events
mod Blocks
mod Calls
pub mod Emits
pub mod Traces
pub use Events.{Event}
unfoldable pub use Blocks.*
unfoldable pub use Calls.*
