-- ===== src/Engine.antt =====
-- The detectors of serving engines and of trl in a container's command.
pub mod Invocation
pub mod ArgMaps
pub mod Server
pub mod Trl
pub mod Launch
