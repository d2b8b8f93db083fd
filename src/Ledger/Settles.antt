-- ===== src/Ledger/Settles.antt =====
-- When `post_journal_entry` returns.
use trutina.Base.{
  ℕ, ◌≡◌, refl, true, false, List, [], ◌∷◌, map, ℤ, pos, ◌≤ℤ◌, All, any, arith, select-none, Text,
  sort_by, xor, ◌<◌, ◌≤◌,
}
use trutina.Platform.{Platform}
use trutina.Rule.{is_non_blank_actor, is_valid_line_amounts}
use trutina.Schema.{pass, pass_all, pass_all-cons}
use trutina.Core.Account.Chart.{ChartOfAccounts}
use trutina.Core.Account.Service.{require_actor}
use trutina.Core.Journal.{JournalViewModel, JournalLineViewModel, start_of_2020}
use trutina.Core.Journal.Valid.{check_amount-pass, check_posting_date-pass}
use trutina.Core.Journal.Service.{get_journal_entry}
use trutina.Core.Posting.{LedgerPosting, ledger_posting}
use trutina.Core.Posting.Valid.{ledger_posting-inv, ledger_posting-pass}
use trutina.Core.Posting.Service.{
  to_view_model, derive_postings, require_unposted, record_postings, post_journal_entry,
}
use trutina.Store.{PostingRow, World, ok, M}
use trutina.Storage.JournalRepo.{one_side, date_in_range, has_number, postgres_journal_repo}
use trutina.Storage.PostingRepo.{of_journal, postgres_posting_repo}
use trutina.Storage.PostingRepo.Success.{from_index, IsAccepted, insert_postings-committed}
use trutina.Ledger.Views.{IsSoundView}
use trutina.Ledger.Postings.{derive-Derives, with_postings}

one_side_of :
    (d c : ℤ) → pos 0 ≤ℤ d → pos 0 ≤ℤ c → is_valid_line_amounts d c ≡ true → one_side d c ≡ true
unfolding is_valid_line_amounts one_side xor
one_side_of d c h k e = ground arith

in_range : (now date : ℕ) → start_of_2020 < date → date ≤ now → date_in_range now date ≡ true
unfolding date_in_range
in_range now date h k = ground arith

none_from :
    (number : ℕ) (rows : List PostingRow)
    → any (of_journal number) rows ≡ false
    → any (from_index number 0) rows ≡ false
none_from number [] h = refl
none_from number (r ∷ rows) h = ground (arith, none_from number rows)

module _ ⦃u : Platform⦄ where
  derive-IsAccepted :
      (now number date : ℕ) (ls : List JournalLineViewModel) (ps : List LedgerPosting)
      → pass_all (λ l. ledger_posting now l.account l.debit_amount l.credit_amount number date) ls
        ≡ pass ps
      → All (IsAccepted now number) ps
  derive-IsAccepted now number date [] ps e = let shape : [] ≡ ps = cc in rw (← shape) tt
  derive-IsAccepted now number date (l ∷ ls) ps e =
      let (p, rest, built, others, shape) =
        pass_all-cons (λ l. ledger_posting now l.account l.debit_amount l.credit_amount number date)
          l ls e in
      let (_, same_d, same_c, n, t) =
        ledger_posting-pass now l.account l.debit_amount l.credit_amount number date p built in
      let (_, d, c, _, dated, side) =
        ledger_posting-inv now l.account l.debit_amount l.credit_amount number date p built in
      let (_, low_d) = check_amount-pass "debit_amount" l.debit_amount d in
      let (_, low_c) = check_amount-pass "credit_amount" l.credit_amount c in
      let (_, late, past) = check_posting_date-pass now date dated in
      let one =
        one_side_of p.debit_amount p.credit_amount (rw same_d low_d) (rw same_c low_c) side in
      rw shape (
        (n, one, rw t (in_range now date late past)),
        derive-IsAccepted now number date ls rest others,
      )

  module _ (chart : M ChartOfAccounts) where
    -- post_journal_entry returns the views of the derived postings, and adds exactly their rows and
    -- one log line, if the actor is not blank, the entry is read as a sound view and has its row,
    -- its lines make postings, and its number has no posting.
    pub post_journal_entry-returns :
        (number : ℕ) (actor : Text) (w : World) (view : JournalViewModel) (ps : List LedgerPosting)
        → is_non_blank_actor actor ≡ true
        → get_journal_entry postgres_journal_repo chart number w ≡ (ok view, w)
        → IsSoundView number view
        → derive_postings w.now view ≡ pass ps
        → any (of_journal number) w.postings ≡ false
        → any (has_number number) w.journal_entries ≡ true
        → post_journal_entry postgres_posting_repo
            (get_journal_entry postgres_journal_repo chart)
            number
            actor
            w
          ≡ (ok (map to_view_model ps), with_postings number ps actor w)
    unfolding post_journal_entry require_actor require_unposted record_postings derive_postings
        sort_by
    post_journal_entry-returns number actor w view ps named read sound built fresh known =
        let d =
          derive-Derives w.now view.journal_number view.posting_date view.lines ps sound.postable
            built in
        let accepted =
          derive-IsAccepted w.now view.journal_number view.posting_date view.lines ps built in
        let stored =
          insert_postings-committed 0 number actor ps w d.stored (rw sound.numbered at accepted)
            (none_from number w.postings fresh) known in
        rw (named, read, select-none (of_journal number) w.postings fresh, built, stored) refl
