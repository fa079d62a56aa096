-- ===== src/Ingestion.antt =====
-- services/ingestion-api/auditcore_ingestion: bundles of evidence, and the endpoints.
pub mod Bundle
pub mod Site
pub mod Item
pub mod Runs
pub mod Reads
