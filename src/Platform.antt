-- ===== src/Platform.antt =====
-- The services together, over the tables that they share.
pub mod Normalizer
pub mod Lifecycle
