-- ===== src/Tests.antt =====
-- Runs of the definitions at concrete inputs, and instances of the theorems.
pub mod Samples
mod Buffers
mod Rules
mod Silence
mod Cooldowns
mod Services
mod Workers
mod Tools
mod Lifecycle
mod Resets
