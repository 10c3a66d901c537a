-- ===== src/Runtime.antt =====
-- firmware/rtos: the state that the tasks share, and the safety gate over it.
pub mod Permanent
pub mod Safe
mod Types
mod Gate
mod Control
unfoldable pub use Types.*
unfoldable pub use Gate.*
unfoldable pub use Control.*
