-- ===== src/Orchestrator.antt =====
-- core/lil_tweak/orchestrator.py: the workflow of a job, its admission and its scheduler.
pub mod Session
pub mod Host
pub mod Moves
pub mod Evidence
pub mod Run
pub mod Returns
pub mod Endings
pub mod Outcomes
pub mod Traces
pub mod Refinement
