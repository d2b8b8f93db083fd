-- ===== src/Core/Posting/Repo.antt =====
-- packages/core/src/trutina/core/posting/repo.py: the contract of the posting storage.
use trutina.Base.{ℕ, List, Text}
use trutina.Core.Posting.{LedgerPosting}
use trutina.Store.{M, Done}

pub record PostingRepo : Type 0 where
  pub save_many : List LedgerPosting → Text → M Done
  pub get_by_account : Text → M (List LedgerPosting)
  pub get_by_journal_number : ℕ → M (List LedgerPosting)
