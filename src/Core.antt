-- ===== src/Core.antt =====
-- packages/core/src/trutina/core: the accounting domain, one module for each feature.
pub mod Account
pub mod Journal
pub mod Posting
pub mod TrialBalance
