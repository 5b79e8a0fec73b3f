-- ===== src/Evidence.antt =====
-- core/lil_tweak/evidence.py: workspace snapshots, patches, and bundles of evidence.
pub mod Snapshots
pub mod Patch
pub mod Bundle
