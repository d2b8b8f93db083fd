-- ===== src/Storage/JournalRepo/Saves.antt =====
-- What `save` writes: the row of the entry, and one row for each line, in order.
use mathlib.Core.List.{append-nil, append_assoc}
use trutina.Base.{
  ℕ, ◌+◌, ◌≡◌, refl, ap, sym, ◌∙◌, inl, inr, false, Bool-cases, Option, none, some, List, [], ◌∷◌,
  ◌++◌, ℤ, Text, any, ◌==◌, ◌&&◌,
}
use trutina.Platform.{Platform}
use trutina.Core.Journal.{JournalLine, JournalEntry}
use trutina.Store.{EntryRow, LineRow, World, Done, Outcome, committed, violated, refused}
use trutina.Storage.JournalRepo.{
  has_number, one_side, date_in_range, insert_entry, insert_line, insert_lines, save_entry, next,
  with_amounts,
}

module _ ⦃u : Platform⦄ where
  -- The rows of an entry's lines, from an index on: amounts rounded to the column type.
  abbrev pub Stores : ℕ → ℕ → List JournalLine → List LineRow → Type 0
  Stores number index [] [] = Unit
  Stores number index [] (r ∷ rows) = ⊥
  Stores number index (l ∷ lines) [] = ⊥
  Stores number index (l ∷ lines) (r ∷ rows) =
      ((r.journal_number ≡ number)
        × (r.line_index ≡ index)
        × (r.account ≡ l.account)
        × (u.to_numeric l.debit_amount ≡ some r.debit_amount)
        × (u.to_numeric l.credit_amount ≡ some r.credit_amount))
      × Stores number (index + 1) lines rows

  -- What the loop over the lines adds, if it commits.
  abbrev SavesLines : ℕ → ℕ → List JournalLine → World → Outcome Done → Type 0
  SavesLines number index lines w (committed d w') =
      (rows : List LineRow) × Stores number index lines rows
      × (w' ≡ record w { journal_lines = w.journal_lines ++ rows })
  SavesLines number index lines w (violated c) = Unit
  SavesLines number index lines w refused = Unit

  abbrev Inserts : LineRow → World → Outcome Done → Type 0
  Inserts row w (committed d w') = w' ≡ record w { journal_lines = w.journal_lines ++ row ∷ [] }
  Inserts row w (violated c) = Unit
  Inserts row w refused = Unit

  insert_line-Inserts : (row : LineRow) (w : World) → Inserts row w (insert_line row w)
  unfolding insert_line
  insert_line-Inserts row w = elim (Bool-cases (one_side row.debit_amount row.credit_amount)) [
    | inr bad ↦ rw bad tt
    | inl one ↦
        elim (Bool-cases (
          any (λ r. r.journal_number == row.journal_number && r.line_index == row.line_index)
            w.journal_lines)) [ inl taken ↦ rw (one, taken) tt | inr free ↦ rw (one, free) refl ]
  ]

  insert_lines-SavesLines :
      (number index : ℕ) (lines : List JournalLine) (w : World)
      → SavesLines number index lines w (insert_lines number index lines w)
  unfolding insert_lines
  insert_lines-SavesLines number index [] w =
      ([], tt, ap (λ z. record w { journal_lines = z }) (sym (append-nil w.journal_lines)))
  insert_lines-SavesLines number index (l ∷ lines) w =
      go (u.to_numeric l.debit_amount) (u.to_numeric l.credit_amount) refl refl
        (insert_lines-SavesLines number (index + 1) lines)
    where
      row_of : ℤ → ℤ → LineRow
      row_of debit credit = record {
        journal_number = number;
        line_index = index;
        account = l.account;
        debit_amount = debit;
        credit_amount = credit;
      }

      join :
          (d c : ℤ) (o : Outcome Done)
          → u.to_numeric l.debit_amount ≡ some d
          → u.to_numeric l.credit_amount ≡ some c
          → ((w' : World)
              → SavesLines number (index + 1) lines w' (insert_lines number (index + 1) lines w'))
          → Inserts (row_of d c) w o
          → SavesLines number index (l ∷ lines) w (next o (insert_lines number (index + 1) lines))
      join d c (committed x w') hd hc rest same =
          after (insert_lines number (index + 1) lines w') (rest w')
        where
          after :
              (o : Outcome Done)
              → SavesLines number (index + 1) lines w' o
              → SavesLines number index (l ∷ lines) w o
          after (committed y v) (rows, stores, shape) = (
            row_of d c ∷ rows,
            ((refl, refl, refl, hd, hc), stores),
            shape
                ∙ ap (λ (z : World). record z { journal_lines = z.journal_lines ++ rows }) same
                ∙ ap (λ z. record w { journal_lines = z })
                    (append_assoc w.journal_lines (row_of d c ∷ []) rows),
          )
          after (violated k) h = tt
          after refused h = tt
      join d c (violated k) hd hc rest same = tt
      join d c refused hd hc rest same = tt

      go :
          (d c : Option ℤ)
          → u.to_numeric l.debit_amount ≡ d
          → u.to_numeric l.credit_amount ≡ c
          → ((w' : World)
              → SavesLines number (index + 1) lines w' (insert_lines number (index + 1) lines w'))
          → SavesLines number index (l ∷ lines) w (
              next
                (with_amounts d c (λ debit credit. insert_line (row_of debit credit) w))
                (insert_lines number (index + 1) lines))
      go (some d) (some c) hd hc rest =
          join d c (insert_line (row_of d c) w) hd hc rest (insert_line-Inserts (row_of d c) w)
      go (some d) none hd hc rest = tt
      go none c hd hc rest = tt

  abbrev pub entry_row : JournalEntry → Text → EntryRow
  entry_row entry created_by = record {
    journal_number = entry.journal_number;
    posting_date = entry.posting_date;
    description = entry.description;
    created_by = created_by;
  }

  -- What `save` adds, if it commits.
  abbrev pub Saves : JournalEntry → Text → World → Outcome Done → Type 0
  Saves entry created_by w (committed d w') =
      (rows : List LineRow) × Stores entry.journal_number 0 entry.lines rows
      × (any (has_number entry.journal_number) w.journal_entries ≡ false)
      × (w' ≡ record w {
        journal_entries = w.journal_entries ++ entry_row entry created_by ∷ [];
        journal_lines = w.journal_lines ++ rows;
      })
  Saves entry created_by w (violated c) = Unit
  Saves entry created_by w refused = Unit

  SavesLines-Saves :
      (entry : JournalEntry) (created_by : Text) (w : World) (o : Outcome Done)
      → any (has_number entry.journal_number) w.journal_entries ≡ false
      → SavesLines entry.journal_number 0 entry.lines
          (record w { journal_entries = w.journal_entries ++ entry_row entry created_by ∷ [] })
          o
      → Saves entry created_by w o
  SavesLines-Saves entry created_by w (committed d w') new (rows, stores, shape) =
      (rows, stores, new, shape)
  SavesLines-Saves entry created_by w (violated c) new h = tt
  SavesLines-Saves entry created_by w refused new h = tt

  -- If the transaction of save commits, the table had no entry of that number, and exactly the row
  -- of the entry and one row for each line were added, in order, with its index and its amounts
  -- rounded to the column type.
  pub save_entry-Saves :
      (entry : JournalEntry) (created_by : Text) (w : World)
      → Saves entry created_by w (save_entry entry created_by w)
  unfolding save_entry insert_entry
  save_entry-Saves entry created_by w =
      elim (Bool-cases (any (has_number entry.journal_number) w.journal_entries)) [
        | inl taken ↦ rw taken tt
        | inr new ↦ elim (Bool-cases (date_in_range w.now entry.posting_date)) [
          | inr bad ↦ rw (new, bad) tt
          | inl dated ↦
              rw (new, dated)
                (SavesLines-Saves entry created_by w _ new
                  (insert_lines-SavesLines entry.journal_number 0 entry.lines _))
        ]
      ]
