-- ===== src/TestWorld.antt =====
-- core/lil_tweak/test_world.py: durable test worlds, their attempts and the leases of workers, as
-- `MemoryTestWorldStore` keeps them.
pub mod Model
pub mod Checks
pub mod Queries
pub mod Admission
pub mod Leases
pub mod Results
pub mod Invariant
pub mod Steps
pub mod Runner
