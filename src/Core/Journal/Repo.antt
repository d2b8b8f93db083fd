-- ===== src/Core/Journal/Repo.antt =====
-- packages/core/src/trutina/core/journal/repo.py: the contract of the journal storage.
use trutina.Base.{ℕ, Option, List, Text}
use trutina.Core.Journal.{JournalEntry}
use trutina.Store.{M, Done}

pub record JournalRepo : Type 0 where
  pub save : JournalEntry → Text → M Done
  pub get_by_number : ℕ → M (Option JournalEntry)
  pub list_entries : M (List JournalEntry)
  pub next_journal_number : M ℕ
