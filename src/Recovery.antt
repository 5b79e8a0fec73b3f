-- ===== src/Recovery.antt =====
-- core/lil_tweak/failure_recovery: classification of failures and bounded recovery decisions.
pub mod Vocabulary
pub mod Contracts
pub mod Classifier
pub mod Policy
pub mod Fingerprints
pub mod History
pub mod Controller
