-- ===== src/Drivers.antt =====
-- The peripheral drivers of firmware/drivers, as the host build implements them
-- (firmware/platform/host). Each driver's static variables are a record.
pub mod Motor
pub mod Encoder
pub mod Gpio
pub mod Timer
pub mod Watchdog
