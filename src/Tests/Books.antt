-- ===== src/Tests/Books.antt =====
-- The journal, the postings and the trial balance on small tables.
use trutina.Base.{
  ◌≡◌, refl, true, none, List, [], ◌∷◌, pos, ◌+ℤ◌, sum, arith, All, select, insert_by, sort_by,
  Text-discrete,
}
use trutina.Schema.{bounded_text, pass, pass_all}
use trutina.Rule.{
  scan_name, matches_name, lstrip, cons_unless_blank, rstrip, strip, clean_account_name,
  is_non_blank_actor, is_valid_line_amounts,
}
use trutina.Core.Account.Chart.{ChartOfAccounts}
use trutina.Core.Account.Service.{get_chart}
use trutina.Core.Journal.{JournalEntry, JournalViewModel, check_line_account, check_amount}
use trutina.Core.Posting.{LedgerPosting}
use trutina.Core.TrialBalance.{AccountBalanceEntry, account_balance_entry}
use trutina.Core.Journal.Service.{get_journal_entry}
use trutina.Core.Posting.Service.{post_journal_entry, record_postings}
use trutina.Store.{M, ok}
use trutina.Storage.AccountRepo.{postgres_account_repo}
use trutina.Storage.JournalRepo.{postgres_journal_repo}
use trutina.Storage.JournalRepo.Lines.{HasStoredLines}
use trutina.Storage.PostingRepo.{postgres_posting_repo}
use trutina.Storage.PostingRepo.Batch.{IsBatch, Batches, IsStoredPosting}
use trutina.Storage.TrialBalanceRepo.{
  in_scope, add_to_groups, group_postings, balance_rows, to_domain,
}
use trutina.Storage.TrialBalanceRepo.Totals.{balance_rows-totals}
use trutina.Tests.Numeric.{to_numeric, to_hundredths}
use trutina.Ledger.Postings.{IsLedger, Records, record_postings-Records}
use trutina.Ledger.Views.{IsSoundView, Views, get_journal_entry-Views}
use trutina.Ledger.Posts.{Posts, post_journal_entry-Posts}
use trutina.Base.{xor, sum_from, total, map}
use trutina.Core.Journal.{
  check_number, check_posting_date, check_lines, check_description, validate_line_amounts,
  validate_balances, total_debits, total_credits, is_balanced as entry_is_balanced, journal_entry,
  journal_line,
}
use trutina.Core.Journal.Service.{to_line_view, to_entry_view, or_unknown_entry}
use trutina.Core.Posting.{validate_amounts, ledger_posting}
use trutina.Core.Posting.Service.{derive_postings, to_view_model}
use trutina.Storage.{scalar_one_or_none}
use trutina.Storage.JournalRepo.{line_to_domain, to_domain as entry_to_domain, load_entry}
use trutina.Ledger.Postings.{with_postings}
use trutina.Ledger.Settles.{post_journal_entry-returns}
use trutina.Tests.{ascii, ann, cash, sales, monday, with_entry, posted_rows, with_posted}

abbrev pub the_chart : M ChartOfAccounts
the_chart = get_chart postgres_account_repo none

pub with_entry-HasStoredLines : HasStoredLines with_entry
unfolding to_numeric to_hundredths
with_entry-HasStoredLines = ((refl, refl), ((refl, refl), tt))

with_posted-HasStoredLines : HasStoredLines with_posted
with_posted-HasStoredLines = with_entry-HasStoredLines

pub empty-IsLedger : IsLedger []
empty-IsLedger = record { batches = Batches.nothing; reportable = tt }

posted-IsBatch : IsBatch 1 posted_rows
unfolding sum ◌+ℤ◌
posted-IsBatch = record {
  date = monday;
  uniform = ((refl, refl), ((refl, refl), tt));
  balanced = refl;
  first = refl;
}

cash-passes : check_line_account cash ≡ pass cash
unfolding check_line_account bounded_text clean_account_name strip lstrip rstrip cons_unless_blank
    matches_name scan_name
cash-passes = refl

sales-passes : check_line_account sales ≡ pass sales
unfolding check_line_account bounded_text clean_account_name strip lstrip rstrip cons_unless_blank
    matches_name scan_name
sales-passes = refl

pub posted-IsLedger : IsLedger posted_rows
posted-IsLedger = record {
  batches = Batches.batch 1 [] posted_rows Batches.nothing posted-IsBatch refl refl;
  reportable =
      ((cash-passes, omega arith, omega arith), ((sales-passes, omega arith, omega arith), tt));
}

post_journal_entry-Posts_example : Posts the_chart 1 ann with_entry (
    post_journal_entry postgres_posting_repo
      (get_journal_entry postgres_journal_repo the_chart)
      1
      ann
      with_entry)
post_journal_entry-Posts_example =
    post_journal_entry-Posts the_chart 1 ann with_entry with_entry-HasStoredLines empty-IsLedger

get_journal_entry-Views_example :
    Views 1 with_entry (get_journal_entry postgres_journal_repo the_chart 1 with_entry)
get_journal_entry-Views_example =
    get_journal_entry-Views the_chart 1 with_entry with_entry-HasStoredLines

-- An entry whose amounts the column type rounds.
abbrev rounded : JournalEntry
rounded = record {
  journal_number = 2;
  posting_date = monday;
  lines =
      record { account = cash; debit_amount = pos 1250; credit_amount = pos 0 }
      ∷ record { account = sales; debit_amount = pos 0; credit_amount = pos 1250 }
      ∷ [];
  description = none;
}

abbrev entry_view : JournalViewModel
entry_view = record {
  journal_number = 1;
  posting_date = monday;
  description = none;
  lines =
      record { account = cash; debit_amount = pos 50000; credit_amount = pos 0 }
      ∷ record { account = sales; debit_amount = pos 0; credit_amount = pos 50000 }
      ∷ [];
  total_debits = pos 50000;
  total_credits = pos 50000;
  is_balanced = true;
}

entry_view-IsSoundView : IsSoundView 1 entry_view
unfolding to_numeric to_hundredths sum ◌+ℤ◌ clean_account_name strip lstrip rstrip cons_unless_blank
    matches_name scan_name
entry_view-IsSoundView = record {
  numbered = refl;
  balanced = refl;
  enough = omega arith;
  postable = (((refl, refl), refl), (((refl, refl), refl), tt));
}

record_postings-Records_example : Records 1 entry_view ann with_entry (
    record_postings postgres_posting_repo
      (get_journal_entry postgres_journal_repo the_chart)
      1
      entry_view
      ann
      with_entry)
record_postings-Records_example =
    record_postings-Records (get_journal_entry postgres_journal_repo the_chart) 1 entry_view ann
      with_entry entry_view-IsSoundView empty-IsLedger

abbrev sale_postings : List LedgerPosting
sale_postings =
    record {
      account = cash;
      debit_amount = pos 50000;
      credit_amount = pos 0;
      journal_number = 1;
      posting_date = monday;
    }
    ∷ record {
      account = sales;
      debit_amount = pos 0;
      credit_amount = pos 50000;
      journal_number = 1;
      posting_date = monday;
    }
    ∷ []

sale_postings-stored : All IsStoredPosting sale_postings
unfolding to_numeric to_hundredths
sale_postings-stored = ((refl, refl), ((refl, refl), tt))

abbrev sale_balances : List AccountBalanceEntry
sale_balances =
    record { account = cash; debit_total = pos 50000; credit_total = pos 0 }
    ∷ record { account = sales; debit_total = pos 0; credit_total = pos 50000 }
    ∷ []

posted_rows-balances : pass_all to_domain (balance_rows none posted_rows) ≡ pass sale_balances
unfolding to_domain balance_rows group_postings add_to_groups in_scope sort_by insert_by
    account_balance_entry check_amount check_line_account bounded_text clean_account_name strip
    lstrip rstrip cons_unless_blank matches_name scan_name Text-discrete
posted_rows-balances = refl

balance_rows-totals_example :
    (sum (λ e. e.debit_total) sale_balances
      ≡ sum (λ r. r.debit_amount) (select (in_scope none) posted_rows))
    × (sum (λ e. e.credit_total) sale_balances
        ≡ sum (λ r. r.credit_amount) (select (in_scope none) posted_rows))
balance_rows-totals_example =
    balance_rows-totals none posted_rows sale_balances posted_rows-balances

reads_entry :
    get_journal_entry postgres_journal_repo the_chart 1 with_entry ≡ (ok entry_view, with_entry)
unfolding bounded_text scan_name matches_name is_valid_line_amounts xor lstrip cons_unless_blank
    rstrip strip clean_account_name check_amount check_number check_posting_date check_lines
    check_description validate_line_amounts validate_balances total_debits total_credits
    entry_is_balanced journal_entry check_line_account journal_line to_line_view to_entry_view
    or_unknown_entry get_journal_entry scalar_one_or_none line_to_domain entry_to_domain load_entry
    sum_from total ◌+ℤ◌ insert_by sort_by
reads_entry = refl

entry_view-derived : derive_postings monday entry_view ≡ pass sale_postings
unfolding bounded_text scan_name matches_name is_valid_line_amounts xor lstrip cons_unless_blank
    rstrip strip clean_account_name check_amount check_number check_posting_date check_line_account
    validate_amounts ledger_posting derive_postings
entry_view-derived = refl

ann_named : is_non_blank_actor ann ≡ true
unfolding is_non_blank_actor lstrip cons_unless_blank rstrip strip
ann_named = refl

post_journal_entry-returns_example :
    post_journal_entry postgres_posting_repo
      (get_journal_entry postgres_journal_repo the_chart)
      1
      ann
      with_entry
    ≡ (ok (map to_view_model sale_postings), with_postings 1 sale_postings ann with_entry)
post_journal_entry-returns_example =
    post_journal_entry-returns the_chart 1 ann with_entry entry_view sale_postings ann_named
      reads_entry entry_view-IsSoundView entry_view-derived refl refl
