-- ===== src/Report.antt =====
-- The sections of the report that `compile_aibom` makes of the detectors' results.
pub mod Status
pub mod SourceCode
pub mod Sections
pub mod Serving
pub mod Declared
pub mod Duration
