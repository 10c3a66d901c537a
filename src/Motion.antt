-- ===== src/Motion.antt =====
-- firmware/control/motion_controller.h and motion_controller.c: the position controller.
pub mod Commands
pub mod Dwell
pub mod Update
pub mod Velocity
mod Types
mod Defs
unfoldable pub use Types.*
unfoldable pub use Defs.*
