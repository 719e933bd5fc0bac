-- ===== src/Image.antt =====
-- What an image says of the code in it: `detect_git_provenance_from_containers`, and the registry
-- that it asks.
pub mod Ref
pub mod Http
pub mod Registry
pub mod Labels
