-- ===== src/Command.antt =====
-- firmware/protocol/command.h and command.c: the text commands.
pub mod Digits
pub mod Print
pub mod RoundTrip
mod Defs
unfoldable pub use Defs.*
