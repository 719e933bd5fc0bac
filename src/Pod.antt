-- ===== src/Pod.antt =====
-- What is read of a pod's containers.
pub mod Status
pub mod Limits
pub mod Window
