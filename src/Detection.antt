-- ===== src/Detection.antt =====
-- internal/detection: the rules and the engine that runs them.
pub mod Config
pub mod SlidingWindow
pub mod Windows
pub mod Recording
pub mod LiveWindows
pub mod Resetting
pub mod ErrorRate
pub mod Latency
pub mod Fingerprint
pub mod RepeatedFailure
pub mod AuthBurst
pub mod OffHours
pub mod ServiceSilence
pub mod Cooldown
pub mod Detector
pub mod Engine
