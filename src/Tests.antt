-- ===== src/Tests.antt =====
-- Runs on concrete inputs, and the theorems applied to them.
mod Commands
mod Sources
mod Operations
mod Reports
mod Images
mod Hooks
mod Datasets
mod Sections
mod Metrics
mod Jobs
