-- ===== src/Tasks.antt =====
-- firmware/tasks: the bodies of the tasks' loops over the shared state.
pub mod Init
pub mod Interleaving
pub mod Feed
mod Types
mod Motion
mod Safety
pub mod Stepping
mod Comms
mod Services
unfoldable pub use Types.*
unfoldable pub use Motion.*
unfoldable pub use Safety.*
unfoldable pub use Comms.*
unfoldable pub use Services.*
