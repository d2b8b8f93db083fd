-- ===== src/Core/Journal/Service.antt =====
-- packages/core/src/trutina/core/journal/service.py, over any repository of the contract and the
-- chart that the account service gives.
use trutina.Base.{ℕ, Option, none, some, List, [], ◌∷◌, map, length, Text, text}
use trutina.Platform.{Platform}
use trutina.Errors.{string, integer, not_found, unknown_account, unknown_journal_entry}
use trutina.Schema.{Check, pass_all, ◌>>=◌ as ◌then◌}
use trutina.Core.Account.Chart.{ChartOfAccounts, get_by_name}
use trutina.Core.Account.Service.{require_actor}
use trutina.Core.Journal.{
  JournalLine, JournalEntry, JournalLineInput, CreateJournalInput, JournalLineViewModel,
  JournalViewModel, journal_line, journal_entry, total_debits, total_credits, is_balanced,
}
use trutina.Core.Journal.Repo.{JournalRepo}
use trutina.Store.{M, Done, pure, throw, translated, gets, write_log, ◌>>=◌, ◌>>◌, journal_created}

-- `_to_line_view`
unfoldable pub to_line_view : JournalLine → JournalLineViewModel
to_line_view line = record {
  account = line.account;
  debit_amount = line.debit_amount;
  credit_amount = line.credit_amount;
}

-- `_to_entry_view`
unfoldable pub to_entry_view : JournalEntry → JournalViewModel
unfolding to_line_view
to_entry_view entry = record {
  journal_number = entry.journal_number;
  posting_date = entry.posting_date;
  description = entry.description;
  lines = map to_line_view entry.lines;
  total_debits = total_debits entry;
  total_credits = total_credits entry;
  is_balanced = is_balanced entry;
}

unfoldable pub or_unknown_entry : ℕ → Option JournalEntry → M JournalEntry
unfolding not_found
or_unknown_entry journal_number (some entry) = pure entry
or_unknown_entry journal_number none =
    throw (not_found unknown_journal_entry (text "journal_entry") (integer journal_number))

module _ ⦃u : Platform⦄ where
  -- The loop of `_validate_accounts`: the first reference that the chart does not know is raised.
  unfoldable pub validate_references : ChartOfAccounts → List JournalLineInput → M Done
  unfolding not_found
  validate_references chart [] = pure tt
  validate_references chart (line ∷ lines) =
      let rest = validate_references chart lines in
      elim (get_by_name chart line.account) [
        | none ↦ throw (not_found unknown_account (text "account") (string line.account))
        | some account ↦ rest
      ]

  -- `_build_lines`
  unfoldable pub build_lines : List JournalLineInput → Check (List JournalLine)
  build_lines lines =
      pass_all (λ line. journal_line line.account line.debit_amount line.credit_amount) lines

  -- The body of the `try`: the lines, then the entry.
  unfoldable pub build_entry : ℕ → ℕ → CreateJournalInput → Check JournalEntry
  unfolding build_lines
  build_entry now journal_number input =
      ◌then◌ (build_lines input.lines)
        (λ lines. journal_entry now journal_number input.posting_date lines input.description)

  module _ (repo : JournalRepo) (get_chart : M ChartOfAccounts) where
    -- `_validate_accounts`
    unfoldable pub validate_accounts : List JournalLineInput → M Done
    unfolding validate_references
    validate_accounts lines = do chart ← get_chart; validate_references chart lines

    unfoldable pub create_journal_entry : CreateJournalInput → Text → M JournalViewModel
    unfolding require_actor validate_accounts
    create_journal_entry input actor = do
      require_actor actor
      validate_accounts input.lines
      journal_number ← repo.next_journal_number
      now ← gets (λ w. w.now)
      entry ← translated (build_entry now journal_number input)
      repo.save entry actor
      write_log (journal_created entry.journal_number (length entry.lines))
      pure (to_entry_view entry)

    unfoldable pub get_journal_entry : ℕ → M JournalViewModel
    unfolding or_unknown_entry
    get_journal_entry journal_number = do
      found ← repo.get_by_number journal_number
      entry ← or_unknown_entry journal_number found
      pure (to_entry_view entry)

    unfoldable pub list_journal_entries : M (List JournalViewModel)
    list_journal_entries = do entries ← repo.list_entries; pure (map to_entry_view entries)
