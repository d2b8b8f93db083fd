-- ===== src/Storage/PostingRepo/Success.antt =====
-- When `save_many` stores its postings.
use mathlib.Core.List.{append-nil, append_assoc}
use trutina.Base.{
  ℕ, ◌+◌, ◌≡◌, refl, ap, sym, ◌∙◌, Bool, true, false, List, [], ◌∷◌, ◌++◌, All, any,
  any-append-false, arith, leb, ◌==◌, ◌&&◌, Text,
}
use trutina.Platform.{Platform}
use trutina.Core.Posting.{LedgerPosting}
use trutina.Store.{PostingRow, World, committed}
use trutina.Storage.JournalRepo.{one_side, date_in_range, has_number}
use trutina.Storage.PostingRepo.{same_slot, insert_posting, insert_postings}
use trutina.Storage.PostingRepo.Batch.{posting_row, posting_rows, IsStoredPosting}

-- A slot of a number at an index or after it.
abbrev pub from_index : ℕ → ℕ → PostingRow → Bool
from_index number index r = r.journal_number == number && leb index r.line_index

later_free :
    (number index : ℕ) (rows : List PostingRow)
    → any (from_index number index) rows ≡ false
    → any (from_index number (index + 1)) rows ≡ false
later_free number index [] h = refl
later_free number index (r ∷ rows) h = ground (arith, later_free number index rows)

slot_free :
    (row : PostingRow) (rows : List PostingRow)
    → any (from_index row.journal_number row.line_index) rows ≡ false
    → any (λ r. same_slot r row) rows ≡ false
slot_free row [] h = refl
slot_free row (r ∷ rows) h = ground (arith, slot_free row rows)

-- A posting that the tables take: of a number, on one side, at a date in range.
abbrev pub IsAccepted : ℕ → ℕ → LedgerPosting → Type 0
IsAccepted now number p =
    (p.journal_number ≡ number)
    × (one_side p.debit_amount p.credit_amount ≡ true)
    × (date_in_range now p.posting_date ≡ true)

module _ ⦃u : Platform⦄ where
  insert_posting-committed :
      (row : PostingRow) (w : World)
      → one_side row.debit_amount row.credit_amount ≡ true
      → date_in_range w.now row.posting_date ≡ true
      → any (λ r. same_slot r row) w.postings ≡ false
      → any (has_number row.journal_number) w.journal_entries ≡ true
      → insert_posting row w ≡ committed tt (record w { postings = w.postings ++ row ∷ [] })
  unfolding insert_posting
  insert_posting-committed row w one dated free known = rw (one, dated, free, known) refl

  -- The transaction of save_many commits all rows if the amounts are of the column type, every
  -- posting has the number of an entry, one side and a date in range, and no row of that number
  -- stands at the first index or after it.
  pub insert_postings-committed :
      (index number : ℕ) (created_by : Text) (ps : List LedgerPosting) (w : World)
      → All IsStoredPosting ps
      → All (IsAccepted w.now number) ps
      → any (from_index number index) w.postings ≡ false
      → any (has_number number) w.journal_entries ≡ true
      → insert_postings index created_by ps w
        ≡ committed tt (record w { postings = w.postings ++ posting_rows index created_by ps })
  unfolding insert_postings
  insert_postings-committed index number created_by [] w stored accepted free known =
      ap (λ z. committed tt (record w { postings = z })) (sym (append-nil w.postings))
  insert_postings-committed index number created_by (p ∷ ps) w stored accepted free known =
      let (same, one, dated) = accepted.0 in
      let row = posting_row index created_by p in
      let first : insert_posting row w
          ≡ committed tt (record w { postings = w.postings ++ row ∷ [] }) =
        insert_posting-committed row w one dated (slot_free row w.postings (rw same free))
          (rw same known) in
      let own : any (from_index number (index + 1)) (row ∷ []) ≡ false = ground arith in
      let rest =
        insert_postings-committed (index + 1) number created_by ps
          (record w { postings = w.postings ++ row ∷ [] }) stored.1 accepted.1
          (any-append-false (from_index number (index + 1)) w.postings (row ∷ [])
            (later_free number index w.postings free) own)
          known in
      rw (stored.0.0, stored.0.1, first)
        (rest
          ∙ ap (λ z. committed tt (record w { postings = z }))
              (append_assoc w.postings (row ∷ []) (posting_rows (index + 1) created_by ps)))
