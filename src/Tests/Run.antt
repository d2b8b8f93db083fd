-- ===== src/Tests/Run.antt =====
-- A client's run: an entry is saved, read, found without postings, and posted.
use trutina.Base.{
  ◌≡◌, refl, Bool, true, false, none, [], ◌∷◌, ◌++◌, pos, ◌+ℤ◌, sum_from, total, length, insert_by,
  sort_by, xor,
}
use trutina.Schema.{bounded_text}
use trutina.Rule.{
  scan_name, matches_name, is_valid_line_amounts, lstrip, cons_unless_blank, rstrip, strip,
  clean_account_name,
}
use trutina.Core.Journal.{
  JournalEntry, JournalViewModel, check_amount, check_number, check_posting_date, check_lines,
  check_description, validate_line_amounts, validate_balances, total_debits, total_credits,
  is_balanced, journal_entry, check_line_account, journal_line,
}
use trutina.Core.Journal.Service.{to_line_view, to_entry_view, or_unknown_entry, get_journal_entry}
use trutina.Core.Posting.Service.{require_unposted, record_postings}
use trutina.Core.TrialBalance.{
  TrialBalanceViewModel, get_trial_balance, is_balanced as report_is_balanced,
}
use trutina.Store.{World, ok, trial_balance_generated}
use trutina.Storage.{scalar_one_or_none}
use trutina.Tests.Numeric.{to_numeric, to_hundredths}
use trutina.Storage.JournalRepo.{
  one_side, date_in_range, insert_entry, insert_line, insert_lines, save_entry, line_to_domain,
  to_domain, load_entry, postgres_journal_repo,
}
use trutina.Storage.PostingRepo.{postgres_posting_repo}
use trutina.Storage.TrialBalanceRepo.{postgres_trial_balance_repo}
use trutina.Ledger.Interleaving.{Request, reached, Step, Reach}
use trutina.Ledger.Interleaving.Consistent.{IsConsistent, Reach-IsConsistent, Reach-report}
use trutina.Tests.{ascii, ann, cash, sales, monday, nothing_yet}
use trutina.Tests.Books.{the_chart}

abbrev pub sale : JournalEntry
sale = record {
  journal_number = 1;
  posting_date = monday;
  lines =
      record { account = cash; debit_amount = pos 50000; credit_amount = pos 0 }
      ∷ record { account = sales; debit_amount = pos 0; credit_amount = pos 50000 }
      ∷ [];
  description = none;
}

abbrev saved : World
saved = reached (postgres_journal_repo.save sale ann nothing_yet)

abbrev sale_view : JournalViewModel
sale_view = record {
  journal_number = 1;
  posting_date = monday;
  description = none;
  lines =
      record { account = cash; debit_amount = pos 50000; credit_amount = pos 0 }
      ∷ record { account = sales; debit_amount = pos 0; credit_amount = pos 50000 }
      ∷ [];
  total_debits = pos 50000;
  total_credits = pos 50000;
  is_balanced = true;
}

reads_sale : get_journal_entry postgres_journal_repo the_chart 1 saved ≡ (ok sale_view, saved)
unfolding bounded_text scan_name matches_name is_valid_line_amounts xor lstrip cons_unless_blank
    rstrip strip clean_account_name check_amount check_number check_posting_date check_lines
    check_description validate_line_amounts validate_balances total_debits total_credits is_balanced
    journal_entry check_line_account journal_line to_line_view to_entry_view or_unknown_entry
    get_journal_entry scalar_one_or_none to_numeric to_hundredths one_side date_in_range
    insert_entry insert_line insert_lines save_entry line_to_domain to_domain load_entry sum_from
    total ◌+ℤ◌ insert_by sort_by
reads_sale = refl

finds_no_posting :
    require_unposted postgres_posting_repo
      (get_journal_entry postgres_journal_repo the_chart)
      1
      saved
    ≡ (ok tt, saved)
unfolding require_unposted sort_by to_numeric to_hundredths one_side date_in_range insert_entry
    insert_line insert_lines save_entry
finds_no_posting = refl

abbrev request : Bool → Request
request checked = record { number = 1; actor = ann; view = sale_view; checked = checked }

abbrev posted : World
posted = reached (
    record_postings postgres_posting_repo (get_journal_entry postgres_journal_repo the_chart) 1
      sale_view ann saved)

run : Reach the_chart (record { world = posted; requests = [] })
run =
    Reach.step
      (Reach.step
        (Reach.step
          (Reach.step (Reach.start nothing_yet refl refl)
            (Step.save_journal sale ann nothing_yet []))
          (Step.read 1 ann sale_view saved saved [] reads_sale))
        (Step.check (request false) saved saved [] [] finds_no_posting))
      (Step.post (request true) saved [] [] refl)

Reach-IsConsistent_example : IsConsistent (record { world = posted; requests = [] })
Reach-IsConsistent_example = Reach-IsConsistent the_chart run

Reach-report_example :
    (view : TrialBalanceViewModel) × (get_trial_balance postgres_trial_balance_repo none posted ≡ (
      ok view,
      record posted { log = posted.log ++ trial_balance_generated (length view.entries) none ∷ [] },
    ))
    × (report_is_balanced view ≡ true)
    × (view.as_of_date ≡ none)
Reach-report_example = Reach-report the_chart none run
