-- ===== src/Core/Posting/Service.antt =====
-- packages/core/src/trutina/core/posting/service.py, over any repository of the contract and the
-- journal entries that the journal service gives.
use trutina.Base.{
  ℕ, Bool, true, false, not, none, some, List, [], ◌∷◌, map, length, if◌then◌else◌, Text, text,
}
use trutina.Platform.{Platform}
use trutina.Errors.{integer, conflict, journal_already_posted}
use trutina.Schema.{Check, pass_all}
use trutina.Core.Account.Service.{require_actor}
use trutina.Core.Journal.{JournalViewModel}
use trutina.Core.Posting.{LedgerPosting, PostingViewModel, is_debit, ledger_posting}
use trutina.Core.Posting.Repo.{PostingRepo}
use trutina.Store.{M, Done, pure, throw_if, uncaught, gets, write_log, ◌>>=◌, ◌>>◌, posting_created}

-- `_to_view_model`
unfoldable pub to_view_model : LedgerPosting → PostingViewModel
unfolding is_debit
to_view_model posting = record {
  account = posting.account;
  debit_amount = if is_debit posting then some posting.debit_amount else none;
  credit_amount = if not (is_debit posting) then some posting.credit_amount else none;
  journal_number = posting.journal_number;
  posting_date = posting.posting_date;
}

-- `if existing:`
abbrev pub is_nonempty {ℓ} : {A : Type ℓ} → List A → Bool
is_nonempty [] = false
is_nonempty (x ∷ xs) = true

module _ ⦃u : Platform⦄ where
  -- `_derive_postings`
  unfoldable pub derive_postings : ℕ → JournalViewModel → Check (List LedgerPosting)
  derive_postings now entry =
      pass_all
        (λ line.
          ledger_posting now line.account line.debit_amount line.credit_amount entry.journal_number
            entry.posting_date)
        entry.lines

  module _ (repo : PostingRepo) (get_journal_entry : ℕ → M JournalViewModel) where
    -- The check that the entry has no postings.
    unfoldable pub require_unposted : ℕ → M Done
    unfolding conflict
    require_unposted journal_number = do
      existing ← repo.get_by_journal_number journal_number
      throw_if (is_nonempty existing) (
          conflict journal_already_posted (text "journal_entry") (text "journal_number")
            (integer journal_number))

    -- The derivation, the write, the log line and the views.
    unfoldable pub record_postings : ℕ → JournalViewModel → Text → M (List PostingViewModel)
    record_postings journal_number entry actor = do
      now ← gets (λ w. w.now)
      postings ← uncaught (derive_postings now entry)
      repo.save_many postings actor
      write_log (posting_created journal_number (length postings))
      pure (map to_view_model postings)

    unfoldable pub post_journal_entry : ℕ → Text → M (List PostingViewModel)
    unfolding require_actor
    post_journal_entry journal_number actor = do
      require_actor actor
      entry ← get_journal_entry journal_number
      require_unposted journal_number
      record_postings journal_number entry actor

    unfoldable pub get_postings_by_account : Text → M (List PostingViewModel)
    get_postings_by_account account = do
      postings ← repo.get_by_account account
      pure (map to_view_model postings)

    unfoldable pub get_postings_by_journal_number : ℕ → M (List PostingViewModel)
    get_postings_by_journal_number journal_number = do
      postings ← repo.get_by_journal_number journal_number
      pure (map to_view_model postings)
