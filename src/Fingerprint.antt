-- ===== src/Fingerprint.antt =====
-- fingerprint/BiometricsFingerprint.cpp: the wrapper of a vendor's fingerprint library.
pub mod Filters
pub mod Device
pub mod Notify
