-- ===== src/Model.antt =====
-- postprocess/postprocess.py, "Model detection".
pub mod Quantization
