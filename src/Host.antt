-- ===== src/Host.antt =====
-- firmware/platform/host: the input and the UART of the host, by whole frames.
pub mod Uart
pub mod Input
pub mod Release
pub mod Frames
pub mod Telemetry
