-- ===== src/Agents.antt =====
-- The agent registry (packages/agents-py/auditcore_agents).
pub mod Definition
pub mod Registry
