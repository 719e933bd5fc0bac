-- ===== src/Runtime.antt =====
-- The detector that runs in the training process.
pub mod Output
pub mod GitRefs
pub mod Flush
pub mod ImportHook
pub mod Datasets
pub mod Capture
