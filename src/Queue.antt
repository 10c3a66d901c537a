-- ===== src/Queue.antt =====
-- The kernel's queue as an interface: `xQueueCreateStatic`, `xQueueSend`, `xQueueReceive` and
-- `uxQueueMessagesWaiting` are FreeRTOS's (third_party/FreeRTOS-Kernel), and copy their items.
mod Defs
pub mod Bounded
pub use Defs.*
