-- ===== src/Storage/JournalRepo/Reads.antt =====
-- What a read of a journal entry returns.
use trutina.Base.{
  ℕ, ◌≤◌, ◌≡◌, refl, subst, Option, none, some, List, [], ◌∷◌, arith, length, sum, All, select,
  sort_by,
}
use trutina.Platform.{Platform}
use trutina.Rule.{clean_account_name}
use trutina.Rule.Clean.{clean_account_name-clean}
use trutina.Schema.{Check, pass, fail, pass_all, pass_all-cons, >>=-pass}
use trutina.Core.Journal.{JournalLine, JournalEntry}
use trutina.Core.Journal.Valid.{journal_line-pass, journal_entry-pass}
use trutina.Store.{EntryRow, LineRow, World, Result, ok, raise, ◌>>=◌, uncaught, pure}
use trutina.Storage.{scalar_one_or_none}
use trutina.Storage.JournalRepo.Lines.{
  IsStoredRow, IsStoredLine, HasStoredLines, All-select, All-sort_by,
}
use trutina.Storage.JournalRepo.{
  line_to_domain, has_number, of_entry, by_index, to_domain, load_entry, postgres_journal_repo,
}

module _ ⦃u : Platform⦄ where
  lines-IsStored :
      (rows : List LineRow) (lines : List JournalLine)
      → All IsStoredRow rows
      → pass_all line_to_domain rows ≡ pass lines
      → All IsStoredLine lines
  unfolding line_to_domain
  lines-IsStored [] lines h e = let shape : [] ≡ lines = cc in rw (← shape) tt
  lines-IsStored (row ∷ rows) lines h e =
      let (l, rest, built, others, shape) = pass_all-cons line_to_domain row rows e in
      let (_, d, c, _, _, _) =
        journal_line-pass row.account row.debit_amount row.credit_amount l built in
      rw shape ((rw d h.0.0, rw c h.0.1), lines-IsStored rows rest h.1 others)

  lines-clean :
      (rows : List LineRow) (lines : List JournalLine)
      → pass_all line_to_domain rows ≡ pass lines
      → All (λ l. clean_account_name l.account ≡ some l.account) lines
  unfolding line_to_domain
  lines-clean [] lines e = let shape : [] ≡ lines = cc in rw (← shape) tt
  lines-clean (row ∷ rows) lines e =
      let (l, rest, built, others, shape) = pass_all-cons line_to_domain row rows e in
      let (cleaned, _, _, _, _, _) =
        journal_line-pass row.account row.debit_amount row.credit_amount l built in
      let (_, _, clean) = clean_account_name-clean row.account l.account cleaned in
      rw shape (clean, lines-clean rows rest others)

  -- An entry of a number, whose totals agree, with two lines or more, all of stored amounts.
  pub record IsSound (number : ℕ) (entry : JournalEntry) : Type 0 where
    pub numbered : entry.journal_number ≡ number
    pub balanced : sum (λ l. l.debit_amount) entry.lines ≡ sum (λ l. l.credit_amount) entry.lines
    pub stored : All IsStoredLine entry.lines
    pub enough : 2 ≤ length entry.lines
    pub cleaned : All (λ l. clean_account_name l.account ≡ some l.account) entry.lines

  to_domain-IsSound :
      (now : ℕ) (row : EntryRow) (rows : List LineRow) (entry : JournalEntry)
      → All IsStoredRow rows
      → to_domain now row rows ≡ pass entry
      → IsSound row.journal_number entry
  unfolding to_domain
  to_domain-IsSound now row rows entry h e =
      let (lines, read, built) = >>=-pass (pass_all line_to_domain rows) _ e in
      let (number, _, same_lines, _, _, _, _, enough, balanced) =
        journal_entry-pass now row.journal_number row.posting_date lines row.description entry
          built in
      record {
        numbered = number;
        balanced = balanced;
        stored = rw same_lines (lines-IsStored rows lines h read);
        enough = rw same_lines enough;
        cleaned = rw same_lines (lines-clean rows lines read);
      }

  -- What a read of an entry gives, by how it ended; it changes nothing.
  abbrev pub Reads : ℕ → World → Result (Option JournalEntry) × World → Type 0
  Reads number w (ok none, w') = w' ≡ w
  Reads number w (ok (some entry), w') = (w' ≡ w) × IsSound number entry
  Reads number w (raise e, w') = w' ≡ w

  rows_of_number :
      (number : ℕ) (rows : List EntryRow)
      → All (λ r. r.journal_number ≡ number) (select (has_number number) rows)
  rows_of_number number [] = tt
  rows_of_number number (row ∷ rows) = ground (arith, rows_of_number number rows)

  load_entry-Reads :
      (number : ℕ) (row : EntryRow) (w : World)
      → row.journal_number ≡ number
      → HasStoredLines w
      → Reads number w (load_entry number (some row) w)
  unfolding load_entry
  load_entry-Reads number row w same h = go (to_domain w.now row rows) refl
    where
      rows : List LineRow
      rows = sort_by by_index (select (of_entry number) w.journal_lines)

      go :
          (c : Check JournalEntry)
          → to_domain w.now row rows ≡ c
          → Reads number w ((uncaught c >>= λ entry. pure (some entry)) w)
      go (pass entry) e = (
        refl,
        subst (λ n. IsSound n entry) same
            (to_domain-IsSound w.now row rows entry
              (All-sort_by IsStoredRow by_index _
                (All-select IsStoredRow (of_entry number) w.journal_lines h))
              e),
      )
      go (fail x) e = refl

  -- On stored lines, get_by_number changes nothing, and an entry that it returns has the number
  -- asked for, equal sums of debits and credits, at least two lines, amounts of the column type and
  -- clean account names.
  pub get_by_number-Reads :
      (number : ℕ) (w : World)
      → HasStoredLines w
      → Reads number w (postgres_journal_repo.get_by_number number w)
  unfolding scalar_one_or_none load_entry
  get_by_number-Reads number w h =
      go (select (has_number number) w.journal_entries) (rows_of_number number w.journal_entries)
    where
      go :
          (rows : List EntryRow)
          → All (λ r. r.journal_number ≡ number) rows
          → Reads number w ((scalar_one_or_none rows >>= load_entry number) w)
      go [] a = refl
      go (row ∷ []) a = load_entry-Reads number row w a.0 h
      go (row ∷ row' ∷ rows) a = refl
