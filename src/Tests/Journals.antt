-- ===== src/Tests/Journals.antt =====
-- The recording of journal entries on small tables.
use trutina.Base.{◌≡◌, none, [], ◌∷◌, pos, select}
use trutina.Core.Journal.{CreateJournalInput}
use trutina.Core.Journal.Service.{create_journal_entry}
use trutina.Storage.JournalRepo.{of_entry, group_lines, lines_of, postgres_journal_repo}
use trutina.Storage.JournalRepo.Grouping.{lines_of-group_lines}
use trutina.Ledger.Journals.{Journals, service_chart, create_journal_entry-Journals}
use trutina.Tests.{ascii, ann, cash, monday, with_entry}

lines_of-group_lines_example :
    lines_of 1 (group_lines with_entry.journal_lines [])
    ≡ select (of_entry 1) with_entry.journal_lines
lines_of-group_lines_example = lines_of-group_lines 1 with_entry.journal_lines

abbrev transfer : CreateJournalInput
transfer = record {
  posting_date = monday;
  lines =
      record { account = cash; debit_amount = pos 2500; credit_amount = pos 0 }
      ∷ record { account = cash; debit_amount = pos 0; credit_amount = pos 2500 }
      ∷ [];
  description = none;
}

create_journal_entry-Journals_example :
    Journals none transfer ann with_entry
      (create_journal_entry postgres_journal_repo (service_chart none) transfer ann with_entry)
create_journal_entry-Journals_example = create_journal_entry-Journals none transfer ann with_entry
