-- ===== src/Job.antt =====
-- The postprocessing Job: `main` of postprocess.py.
pub mod Detected
pub mod Publish
