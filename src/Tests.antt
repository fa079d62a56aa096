-- ===== src/Tests.antt =====
-- Runs of the model on concrete data.
mod Data
mod Discovery
mod Passes
mod Gateway
mod Rendering
mod Ingestion
mod Platform
mod Connectors
mod Registry
mod Reads
