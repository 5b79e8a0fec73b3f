-- ===== src/Archives.antt =====
-- core/lil_tweak/archive.py: the names of members, the inspection of an archive before anything is
-- written, and what an inspected archive promises.
pub mod Names
pub mod Inspection
pub mod Paths
pub mod Safety
