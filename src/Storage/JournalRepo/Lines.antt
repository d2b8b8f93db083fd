-- ===== src/Storage/JournalRepo/Lines.antt =====
-- The stored amounts of journal lines.
use trutina.Base.{
  ℕ, ◌≡◌, refl, ◌∙◌, inl, inr, Bool, Option, none, some, List, [], ◌∷◌, ◌+◌, arith, ℤ, All,
  All-append, select, insert_by, sort_by, Text, Bool-cases,
}
use trutina.Platform.{Platform}
use trutina.Core.Journal.{JournalLine, JournalEntry}
use trutina.Store.{EntryRow, LineRow, World, Outcome, committed, violated, refused}
use trutina.Storage.JournalRepo.{
  insert_entry, insert_line, insert_lines, save_entry, next, with_amounts,
}

module _ {ℓ} {A : Type 0} (P : A → Type ℓ) where
  pub All-select : (q : A → Bool) (xs : List A) → All P xs → All P (select q xs)
  All-select q [] h = tt
  All-select q (x ∷ xs) h = elim (Bool-cases (q x)) [
    | inl kept ↦ rw kept (h.0, All-select q xs h.1)
    | inr dropped ↦ rw dropped (All-select q xs h.1)
  ]

  All-insert_by :
      (before : A → A → Bool) (x : A) (xs : List A) → P x → All P xs → All P (insert_by before x xs)
  unfolding insert_by
  All-insert_by before x [] p h = (p, tt)
  All-insert_by before x (y ∷ ys) p h = elim (Bool-cases (before x y)) [
    | inl first ↦ rw first (p, h)
    | inr later ↦ rw later (h.0, All-insert_by before x ys p h.1)
  ]

  pub All-sort_by : (before : A → A → Bool) (xs : List A) → All P xs → All P (sort_by before xs)
  unfolding sort_by
  All-sort_by before [] h = tt
  All-sort_by before (x ∷ xs) h =
      All-insert_by before x (sort_by before xs) h.0 (All-sort_by before xs h.1)

module _ ⦃u : Platform⦄ where
  -- An amount that the column type stores as it is.
  abbrev pub IsStored : ℤ → Type 0
  IsStored amount = u.to_numeric amount ≡ some amount

  abbrev pub IsStoredRow : LineRow → Type 0
  IsStoredRow row = IsStored row.debit_amount × IsStored row.credit_amount

  abbrev pub IsStoredLine : JournalLine → Type 0
  IsStoredLine line = IsStored line.debit_amount × IsStored line.credit_amount

  -- All lines of the table hold stored amounts.
  abbrev pub HasStoredLines : World → Type 0
  HasStoredLines w = All IsStoredRow w.journal_lines

  -- A state differs from another in the journal tables only.
  abbrev pub LeavesPostings : World → World → Type 0
  LeavesPostings w w' = (w'.postings ≡ w.postings) × (w'.now ≡ w.now)

  -- What a transaction on the journal does to the rest, if it commits.
  abbrev pub KeepsLines : {A : Type 0} → World → Outcome A → Type 0
  KeepsLines w (committed a w') = HasStoredLines w' × LeavesPostings w w'
  KeepsLines w (violated c) = Unit
  KeepsLines w refused = Unit

  insert_line-KeepsLines :
      (row : LineRow) (w : World)
      → IsStoredRow row
      → HasStoredLines w
      → KeepsLines w (insert_line row w)
  unfolding insert_line
  insert_line-KeepsLines row w s h =
      ground (arith, All-append IsStoredRow w.journal_lines (row ∷ []) h (s, tt))

  KeepsLines-trans :
      {A : Type 0} (w w' : World) (o : Outcome A)
      → LeavesPostings w w'
      → KeepsLines w' o
      → KeepsLines w o
  KeepsLines-trans w w' (committed a v) l k = (k.0, (k.1.0 ∙ l.0, k.1.1 ∙ l.1))
  KeepsLines-trans w w' (violated c) l k = tt
  KeepsLines-trans w w' refused l k = tt

  next-KeepsLines :
      {A B : Type 0} (w : World) (o : Outcome A) (k : World → Outcome B)
      → KeepsLines w o
      → ((w' : World) → HasStoredLines w' → KeepsLines w' (k w'))
      → KeepsLines w (next o k)
  next-KeepsLines w (committed a w') k h f = KeepsLines-trans w w' (k w') h.1 (f w' h.0)
  next-KeepsLines w (violated c) k h f = tt
  next-KeepsLines w refused k h f = tt

  insert_lines-KeepsLines :
      (number index : ℕ) (lines : List JournalLine) (w : World)
      → HasStoredLines w
      → KeepsLines w (insert_lines number index lines w)
  unfolding insert_lines
  insert_lines-KeepsLines number index [] w h = (h, (refl, refl))
  insert_lines-KeepsLines number index (line ∷ lines) w h =
      next-KeepsLines w _ _
        (go (u.to_numeric line.debit_amount) (u.to_numeric line.credit_amount) refl refl)
        (λ w'. insert_lines-KeepsLines number (index + 1) lines w')
    where
      go :
          (d c : Option ℤ)
          → u.to_numeric line.debit_amount ≡ d
          → u.to_numeric line.credit_amount ≡ c
          → KeepsLines w (
              with_amounts d c (λ debit credit.
                insert_line
                  (record {
                    journal_number = number;
                    line_index = index;
                    account = line.account;
                    debit_amount = debit;
                    credit_amount = credit;
                  })
                  w))
      go (some d) (some c) e k =
          insert_line-KeepsLines _ w
            (u.to_numeric_again line.debit_amount d e, u.to_numeric_again line.credit_amount c k) h
      go (some d) none e k = tt
      go none c e k = tt

  insert_entry-KeepsLines :
      (row : EntryRow) (w : World) → HasStoredLines w → KeepsLines w (insert_entry row w)
  unfolding insert_entry
  insert_entry-KeepsLines row w h = ground arith

  -- If all journal lines hold amounts of the column type, they do after the transaction of save
  -- commits, whatever the entry, and the postings and the clock are unchanged.
  pub save_entry-KeepsLines :
      (entry : JournalEntry) (created_by : Text) (w : World)
      → HasStoredLines w
      → KeepsLines w (save_entry entry created_by w)
  unfolding save_entry
  save_entry-KeepsLines entry created_by w h =
      next-KeepsLines w _ _ (insert_entry-KeepsLines _ w h)
        (λ w'. insert_lines-KeepsLines entry.journal_number 0 entry.lines w')
