-- ===== src/Homing.antt =====
-- firmware/control/homing.h and homing.c: the search for the negative switch.
pub mod Search
mod Defs
unfoldable pub use Defs.*
