-- ===== src/Safety.antt =====
-- firmware/safety/safety_manager.h and safety_manager.c: detection, latching and reset of faults.
mod Defs
pub mod Latch
pub mod Reset
pub mod Stall
pub mod Hazards
unfoldable pub use Defs.*
