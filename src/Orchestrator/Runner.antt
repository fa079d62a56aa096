-- ===== src/Orchestrator/Runner.antt =====
-- runner.py: the passes over a run that the command line starts.
pub mod Grouping
pub mod Discover
pub mod Assemble
