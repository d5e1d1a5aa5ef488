-- ===== src/Tests.antt =====
-- Runs on small inputs, one module for each part of the program.
pub mod Sensors
pub mod Proxy
pub mod System
pub mod Loading
pub mod Usb
pub mod Port
pub mod Fingerprint
pub mod Init
pub mod Power
pub mod Stop
