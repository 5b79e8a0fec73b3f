-- ===== src/Jobs.antt =====
-- core/lil_tweak/store.py: `MemoryJobStore`, the store of engineering jobs.
pub mod Model
pub mod Events
pub mod Nonces
pub mod Updates
pub mod Cancels
pub mod Approvals
pub mod Leases
pub mod Logs
