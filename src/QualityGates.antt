-- ===== src/QualityGates.antt =====
-- flowctl/quality_gates.py: the risk of slices, and the checkpoints and scores that gate a workflow.
pub mod Risk
pub mod Gates
pub mod Matrix
pub mod LastTarget
pub mod Levels
pub mod Scores
mod Tests
