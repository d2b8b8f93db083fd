-- ===== src/Storage/PostingRepo/Batch.antt =====
-- The table `postings` as a sequence of batches, one for each posted journal number.
use trutina.Base.{
  ℕ, ◌+◌, ◌≡◌, refl, ap, ap₂, sym, ◌∙◌, ◌⊎◌, inl, inr, Bool, true, false, ◌&&◌, Option, none, some,
  List, [], ◌∷◌, ◌++◌, arith, if◌then◌else◌, ◌==◌, leb, ◌+ℤ◌, sum, sum-append, All, any, any-append,
  select, select-append, Text, Bool-cases, subst,
}
use mathlib.Core.List.{append-nil, append_assoc}
use trutina.Platform.{Platform}
use trutina.Rule.{account_lookup_key}
use trutina.Core.Posting.{LedgerPosting}
use trutina.Store.{
  PostingRow, World, committed, violated, Constraint, uq_postings_journal_number_line_index,
  ck_postings_exactly_one_side, ck_postings_posting_date_range, fk_postings_journal_number,
}
use trutina.Storage.JournalRepo.{one_side, date_in_range, has_number}
use trutina.Storage.JournalRepo.Lines.{IsStored}
use trutina.Storage.PostingRepo.{of_journal, same_slot, insert_posting, insert_postings}
use trutina.Storage.TrialBalanceRepo.{in_scope}

-- The rows written for one entry: one number, one date, equal sums, and a row of index 0.
pub record IsBatch (number : ℕ) (batch : List PostingRow) : Type 0 where
  pub date : ℕ
  pub uniform : All (λ r. (r.journal_number ≡ number) × (r.posting_date ≡ date)) batch
  pub balanced : sum (λ r. r.debit_amount) batch ≡ sum (λ r. r.credit_amount) batch
  pub first : any (λ r. r.journal_number == number && r.line_index == 0) batch ≡ true

pub data Batches : List PostingRow → Type 0 where
  nothing : Batches []
  batch :
      (number : ℕ) (old new : List PostingRow) {rows : List PostingRow}
      → Batches old
      → IsBatch number new
      → any (of_journal number) old ≡ false
      → rows ≡ old ++ new
      → Batches rows

abbrev IsUniform : ℕ → ℕ → List PostingRow → Type 0
IsUniform number date = All (λ r. (r.journal_number ≡ number) × (r.posting_date ≡ date))

select-all : (rows : List PostingRow) → select (in_scope none) rows ≡ rows
unfolding in_scope
select-all [] = refl
select-all (r ∷ rows) = ap (◌∷◌ r) (select-all rows)

select-early :
    (d number date : ℕ) (rows : List PostingRow)
    → IsUniform number date rows
    → leb date d ≡ true
    → select (in_scope (some d)) rows ≡ rows
unfolding in_scope
select-early d number date [] h e = refl
select-early d number date (r ∷ rows) h e =
    let here : leb r.posting_date d ≡ true = (rw h.0.1 e) in
    rw (here, select-early d number date rows h.1 e)

select-late :
    (d number date : ℕ) (rows : List PostingRow)
    → IsUniform number date rows
    → leb date d ≡ false
    → select (in_scope (some d)) rows ≡ []
unfolding in_scope
select-late d number date [] h e = refl
select-late d number date (r ∷ rows) h e =
    let here : leb r.posting_date d ≡ false = (rw h.0.1 e) in
    rw (here, select-late d number date rows h.1 e)

-- A batch is in the scope of a date as a whole, or not at all.
select-uniform :
    (as_of_date : Option ℕ) (number date : ℕ) (rows : List PostingRow)
    → IsUniform number date rows
    → (select (in_scope as_of_date) rows ≡ rows) ⊎ (select (in_scope as_of_date) rows ≡ [])
select-uniform none number date rows h = inl (select-all rows)
select-uniform (some d) number date rows h = elim (Bool-cases (leb date d)) [
  | inl early ↦ inl (select-early d number date rows h early)
  | inr late ↦ inr (select-late d number date rows h late)
]

abbrev IsEven : List PostingRow → Type 0
IsEven rows = sum (λ r. r.debit_amount) rows ≡ sum (λ r. r.credit_amount) rows

IsEven-append : (xs ys : List PostingRow) → IsEven xs → IsEven ys → IsEven (xs ++ ys)
IsEven-append xs ys h k = sum-append _ xs ys ∙ ap₂ ◌+ℤ◌ h k ∙ sym (sum-append _ xs ys)

-- In a table that is a sequence of balanced batches, each of one date, the rows in scope of any
-- date, or of no date, carry as much debit as credit.
pub Batches-even :
    (as_of_date : Option ℕ) {rows : List PostingRow}
    → Batches rows
    → sum (λ r. r.debit_amount) (select (in_scope as_of_date) rows)
      ≡ sum (λ r. r.credit_amount) (select (in_scope as_of_date) rows)
unfolding sum
Batches-even as_of_date nothing = refl
Batches-even as_of_date (batch number old new b n fresh e) =
    rw (e, select-append (in_scope as_of_date) old new)
      (IsEven-append _ _ (Batches-even as_of_date b)
        (elim (select-uniform as_of_date number n.date new n.uniform) [
          | inl whole ↦ rw whole n.balanced
          | inr out ↦ rw out refl
        ]))

abbrev pub first_slot : ℕ → PostingRow → Bool
first_slot number r = r.journal_number == number && r.line_index == 0

any-uniform :
    (number other date : ℕ) (rows : List PostingRow)
    → IsUniform number date rows
    → any (of_journal other) rows ≡ true
    → number ≡ other
any-uniform number other date [] h e = absurd (ground arith)
any-uniform number other date (r ∷ rows) h e = elim (Bool-cases (of_journal other r)) [
  | inl here ↦ ground arith
  | inr there ↦ any-uniform number other date rows h.1 (rw there at e)
]

split_false : (b c : Bool) → (if b then true else c) ≡ false → (b ≡ false) × (c ≡ false)
split_false true c h = cc
split_false false c h = (refl, h)

-- A number with no row in the first slot has no row at all.
pub Batches-fresh :
    (number : ℕ) {rows : List PostingRow}
    → Batches rows
    → any (first_slot number) rows ≡ false
    → any (of_journal number) rows ≡ false
Batches-fresh number nothing h = refl
Batches-fresh number (batch other old new b n fresh e) h =
    let (before, here) =
      split_false (any (first_slot number) old) (any (first_slot number) new)
        (sym (any-append (first_slot number) old new) ∙ (rw e at h)) in
    elim (Bool-cases (any (of_journal number) new)) [
      | inl there ↦
          let same = any-uniform other number n.date new n.uniform there in
          let met = subst (λ k. any (first_slot k) new ≡ true) same n.first in absurd (cc)
      | inr absent ↦
          rw (e, any-append (of_journal number) old new, Batches-fresh number b before) absent
    ]

-- The rows of postings whose amounts are of the column type.
module _ ⦃u : Platform⦄ where
  abbrev pub posting_row : ℕ → Text → LedgerPosting → PostingRow
  posting_row index created_by p = record {
    account = p.account;
    account_key = account_lookup_key p.account;
    debit_amount = p.debit_amount;
    credit_amount = p.credit_amount;
    journal_number = p.journal_number;
    posting_date = p.posting_date;
    line_index = index;
    created_by = created_by;
  }

  abbrev pub posting_rows : ℕ → Text → List LedgerPosting → List PostingRow
  posting_rows index created_by [] = []
  posting_rows index created_by (p ∷ ps) =
      posting_row index created_by p ∷ posting_rows (index + 1) created_by ps

  abbrev pub IsStoredPosting : LedgerPosting → Type 0
  IsStoredPosting p = IsStored p.debit_amount × IsStored p.credit_amount

  insert_posting-cases :
      (row : PostingRow) (w : World)
      → ((c : Constraint) × (insert_posting row w ≡ violated c))
        ⊎ ((insert_posting row w ≡ committed tt (record w { postings = w.postings ++ row ∷ [] }))
            × (any (λ r. same_slot r row) w.postings ≡ false))
  unfolding insert_posting
  insert_posting-cases row w = elim (Bool-cases (one_side row.debit_amount row.credit_amount)) [
    | inr bad ↦ inl (ck_postings_exactly_one_side, rw bad refl)
    | inl one ↦ elim (Bool-cases (date_in_range w.now row.posting_date)) [
      | inr bad ↦ inl (ck_postings_posting_date_range, rw (one, bad) refl)
      | inl dated ↦ elim (Bool-cases (any (λ r. same_slot r row) w.postings)) [
        | inl taken ↦ inl (uq_postings_journal_number_line_index, rw (one, dated, taken) refl)
        | inr free ↦ elim (Bool-cases (any (has_number row.journal_number) w.journal_entries)) [
          | inl known ↦ inr (rw (one, dated, free, known) refl, free)
          | inr unknown ↦ inl (fk_postings_journal_number, rw (one, dated, free, unknown) refl)
        ]
      ]
    ]
  ]

  -- For postings whose amounts are of the column type, the transaction of save_many is stopped by a
  -- constraint, or adds one row for each posting, in order and with its index.
  pub insert_postings-cases :
      (index : ℕ) (created_by : Text) (ps : List LedgerPosting) (w : World)
      → All IsStoredPosting ps
      → ((c : Constraint) × (insert_postings index created_by ps w ≡ violated c))
        ⊎ (insert_postings index created_by ps w
            ≡ committed tt (record w { postings = w.postings ++ posting_rows index created_by ps }))
  unfolding insert_postings
  insert_postings-cases index created_by [] w h =
      inr (ap (λ z. committed tt (record w { postings = z })) (sym (append-nil w.postings)))
  insert_postings-cases index created_by (p ∷ ps) w h =
      let row = posting_row index created_by p in
      elim (insert_posting-cases row w) [
        | inl (c, stopped) ↦ inl (c, rw (h.0.0, h.0.1, stopped) refl)
        | inr (stored, _) ↦
            elim (insert_postings-cases (index + 1) created_by ps
              (record w { postings = w.postings ++ row ∷ [] }) h.1) [
                | inl (c, stopped) ↦ inl (c, rw (h.0.0, h.0.1, stored) stopped)
                | inr rest ↦ inr (
                    rw (h.0.0, h.0.1, stored)
                      (rest
                        ∙ ap (λ z. committed tt (record w { postings = z }))
                            (append_assoc w.postings (row ∷ [])
                              (posting_rows (index + 1) created_by ps))))
              ]
      ]

  -- If anything is stored, no row of that number had the first index.
  pub insert_postings-first :
      (created_by : Text) (p : LedgerPosting) (ps : List LedgerPosting) (w w' : World)
      → All IsStoredPosting (p ∷ ps)
      → insert_postings 0 created_by (p ∷ ps) w ≡ committed tt w'
      → any (first_slot p.journal_number) w.postings ≡ false
  unfolding insert_postings
  insert_postings-first created_by p ps w w' h e =
      elim (insert_posting-cases (posting_row 0 created_by p) w) [
        | inl (c, stopped) ↦
            let clash : violated c ≡ committed tt w' = (rw (h.0.0, h.0.1, stopped) at e) in
            absurd (cc)
        | inr (_, free) ↦ free
      ]
