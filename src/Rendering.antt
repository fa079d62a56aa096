-- ===== src/Rendering.antt =====
-- The report generator (services/report-generator/auditcore_report).
pub mod Sections
pub mod Loader
pub mod Grouping
pub mod Shown
