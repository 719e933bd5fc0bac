-- ===== src/Source.antt =====
-- Where models, datasets and code come from.
pub mod Container
pub mod Path
pub mod Url
pub mod Git
pub mod Provenance
pub mod Storage
pub mod Models
pub mod Dataset
