-- ===== src/Float.antt =====
-- The operations of the C type `float` that the firmware uses, as an interface: the arithmetic of
-- IEEE 754 is the compiler's and the processor's, and no file of the repository implements it.
mod Defs
mod Laws
pub mod Fixed
pub use Defs.*
pub use Laws.*
