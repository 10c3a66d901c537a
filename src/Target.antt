-- ===== src/Target.antt =====
-- firmware/platform/stm32: the drivers of the STM32F407 board, against those of the host.
pub mod Motor
pub mod Encoder
pub mod Uart
pub mod Telemetry
pub mod Inputs
pub mod Watchdog
