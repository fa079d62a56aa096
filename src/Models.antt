-- ===== src/Models.antt =====
-- The shared data models (packages/models-py/auditcore_models).
pub mod Category
pub mod Core
