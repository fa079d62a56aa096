-- ===== src/Orchestrator.antt =====
-- The discovery orchestrator (services/orchestrator/auditcore_orchestrator).
pub mod Domains
pub mod Rows
pub mod Repo
pub mod Discovery
pub mod Report
pub mod Runner
pub mod PgRepo
pub mod Cli
