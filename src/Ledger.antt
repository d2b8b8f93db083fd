-- ===== src/Ledger.antt =====
-- The services over the PostgreSQL repositories.
pub mod Accounts
pub mod Changes
pub mod Interleaving
pub mod Journals
pub mod Opens
pub mod Postings
pub mod Posts
pub mod Reading
pub mod Report
pub mod Settles
pub mod Views
