-- ===== src/Storage/PostingRepo.antt =====
-- storage_postgres/posting/repository.py over the table `postings`.
pub mod Batch
pub mod Success
use trutina.Base.{
  ℕ, ◌+◌, Bool, true, false, not, ◌&&◌, Option, none, some, List, [], ◌∷◌, ◌++◌, if◌then◌else◌, leb,
  ◌==◌, same, Text, text, select, any, sort_by,
}
use trutina.Platform.{Platform}
use trutina.Errors.{Error, Value, integer, string, conflict, journal_already_posted}
use trutina.Schema.{Check, pass_all}
use trutina.Rule.{account_lookup_key}
use trutina.Core.Posting.{LedgerPosting, ledger_posting}
use trutina.Core.Posting.Repo.{PostingRepo}
use trutina.Store.{
  PostingRow, World, ok, M, Done, uncaught, gets, ◌>>=◌, Constraint,
  uq_postings_journal_number_line_index, ck_postings_exactly_one_side,
  ck_postings_posting_date_range, fk_postings_journal_number, Outcome, committed, violated, execute,
}
use trutina.Storage.JournalRepo.{one_side, date_in_range, has_number, next, with_amounts}

-- `str(postings[0].journal_number if postings else None)`
unfoldable pub batch_number : List LedgerPosting → Value
batch_number [] = string (text "None")
batch_number (p ∷ ps) = integer p.journal_number

-- `_on_duplicate`
unfoldable pub on_duplicate : List LedgerPosting → Constraint → Error
unfolding conflict batch_number
on_duplicate postings _ =
    conflict journal_already_posted (text "journal_entry") (text "journal_number")
      (batch_number postings)

abbrev pub of_journal : ℕ → PostingRow → Bool
of_journal n row = row.journal_number == n

abbrev pub same_slot : PostingRow → PostingRow → Bool
same_slot r s = r.journal_number == s.journal_number && r.line_index == s.line_index

-- INSERT of one row into `postings`, its amounts already of the column type.
unfoldable pub insert_posting : PostingRow → World → Outcome Done
unfolding one_side date_in_range
insert_posting row w =
    if not (one_side row.debit_amount row.credit_amount)
    then violated ck_postings_exactly_one_side
    else if not (date_in_range w.now row.posting_date)
    then violated ck_postings_posting_date_range
    else if any (λ r. same_slot r row) w.postings
    then violated uq_postings_journal_number_line_index
    else if any (has_number row.journal_number) w.journal_entries
    then committed tt (record w { postings = w.postings ++ row ∷ [] })
    else violated fk_postings_journal_number

abbrev pub by_line : PostingRow → PostingRow → Bool
by_line r s = leb r.line_index s.line_index

abbrev pub by_date : PostingRow → PostingRow → Bool
by_date r s = leb r.posting_date s.posting_date

module _ ⦃u : Platform⦄ where
  -- The loop of `save_many`, from an index on: one transaction.
  unfoldable pub insert_postings : ℕ → Text → List LedgerPosting → World → Outcome Done
  insert_postings index created_by [] w = committed tt w
  insert_postings index created_by (p ∷ ps) w =
      let rest = insert_postings (index + 1) created_by ps in
      next
        (with_amounts (u.to_numeric p.debit_amount) (u.to_numeric p.credit_amount) λ debit credit.
          insert_posting
            (record {
              account = p.account;
              account_key = account_lookup_key p.account;
              debit_amount = debit;
              credit_amount = credit;
              journal_number = p.journal_number;
              posting_date = p.posting_date;
              line_index = index;
              created_by = created_by;
            })
            w)
        rest

  -- `_to_domain`, at the present `now`.
  unfoldable pub to_domain : ℕ → PostingRow → Check LedgerPosting
  to_domain now row =
      ledger_posting now row.account row.debit_amount row.credit_amount row.journal_number
        row.posting_date

  -- `PostgresPostingRepo`
  abbrev pub postgres_posting_repo : PostingRepo
  postgres_posting_repo = record {
    save_many = λ postings created_by.
        execute (on_duplicate postings) (insert_postings 0 created_by postings);
    get_by_account = λ account. do
      now ← gets (λ w. w.now)
      rows ← gets (λ w.
          sort_by by_date
            (select (λ r. same r.account_key (account_lookup_key account)) w.postings))
      uncaught (pass_all (to_domain now) rows);
    get_by_journal_number = λ number. do
      now ← gets (λ w. w.now)
      rows ← gets (λ w. sort_by by_line (select (of_journal number) w.postings))
      uncaught (pass_all (to_domain now) rows);
  }
