-- ===== src/Runtime/Datasets.antt =====
-- The datasets that the hooks of runtime_detector.py detect: what `load_dataset` and a DataLoader
-- are seen to use, and the registries that tell when both use the same dataset.
pub mod Entry
pub mod Registry
pub mod Loader
pub mod Load
pub mod Vision
