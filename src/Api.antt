-- ===== src/Api.antt =====
-- apps/api/src/trutina/api: what the API answers.
pub mod Catalog
pub mod Handlers
pub mod Routes
pub mod Accounts
pub mod Journals
pub mod Postings
pub mod Container
pub mod Effects
pub mod Reports
