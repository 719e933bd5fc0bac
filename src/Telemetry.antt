-- ===== src/Telemetry.antt =====
-- How metrics are collected and fitted into a document.
pub mod Retry
pub mod Series
pub mod Fit
pub mod Stats
pub mod Aggregate
pub mod Queries
pub mod Lines
