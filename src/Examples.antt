-- ===== src/Examples.antt =====
-- The theorems at concrete values.
pub mod Jobs
pub mod Recoveries
pub mod Worlds
pub mod Stores
pub mod Cancels
mod Patches
mod Orchestrations
mod Archives
mod Judgements
mod Signatures
