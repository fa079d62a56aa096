-- ===== src/Gateway.antt =====
-- The model gateway (services/model-gateway/auditcore_gateway).
pub mod Types
pub mod Providers
pub mod Routing
pub mod Cost
pub mod Validator
pub mod Complete
pub mod Http
