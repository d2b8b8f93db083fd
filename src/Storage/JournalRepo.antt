-- ===== src/Storage/JournalRepo.antt =====
-- storage_postgres/journal/repository.py over the tables `journal_entries` and `journal_lines`.
pub mod Grouping
pub mod Lines
pub mod Saves
pub mod Reads
use trutina.Base.{
  ℕ, ◌+◌, Bool, true, false, not, ◌&&◌, ◌||◌, Option, none, some, List, [], ◌∷◌, ◌++◌,
  if◌then◌else◌, ltb, leb, ◌==◌, ℤ, pos, ltb_ℤ, eqb_ℤ, Text, text, select, any, sort_by,
}
use trutina.Platform.{Platform}
use trutina.Errors.{Error, integer, conflict, unknown_error}
use trutina.Schema.{Check, pass, pass_all, ◌>>=◌ as ◌then◌}
use trutina.Core.Journal.{JournalLine, JournalEntry, journal_line, journal_entry, start_of_2020}
use trutina.Core.Journal.Repo.{JournalRepo}
use trutina.Store.{
  EntryRow, LineRow, World, Result, ok, raise, M, Done, pure, uncaught, gets, ◌>>=◌, Constraint,
  pk_journal_entries, ck_journal_entries_posting_date_range,
  uq_journal_lines_journal_number_line_index, ck_journal_lines_exactly_one_side, Outcome, committed,
  violated, refused, execute,
}
use trutina.Storage.{scalar_one_or_none}

-- `_on_duplicate`
unfoldable pub on_duplicate : ℕ → Constraint → Error
unfolding conflict
on_duplicate journal_number _ =
    conflict unknown_error (text "journal_entry") (text "journal_number") (integer journal_number)

abbrev pub has_number : ℕ → EntryRow → Bool
has_number n row = row.journal_number == n

abbrev pub of_entry : ℕ → LineRow → Bool
of_entry n row = row.journal_number == n

-- ck_journal_lines_exactly_one_side and ck_postings_exactly_one_side
unfoldable pub one_side : ℤ → ℤ → Bool
one_side debit credit =
    (ltb_ℤ (pos 0) debit && eqb_ℤ credit (pos 0)) || (ltb_ℤ (pos 0) credit && eqb_ℤ debit (pos 0))

-- ck_journal_entries_posting_date_range and ck_postings_posting_date_range
unfoldable pub date_in_range : ℕ → ℕ → Bool
date_in_range now date = ltb start_of_2020 date && leb date now

-- INSERT into `journal_entries`.
unfoldable pub insert_entry : EntryRow → World → Outcome Done
unfolding date_in_range
insert_entry row w =
    if any (has_number row.journal_number) w.journal_entries
    then violated pk_journal_entries
    else if date_in_range w.now row.posting_date
    then committed tt (record w { journal_entries = w.journal_entries ++ row ∷ [] })
    else violated ck_journal_entries_posting_date_range

-- INSERT of one row into `journal_lines`, its amounts already of the column type.
unfoldable pub insert_line : LineRow → World → Outcome Done
unfolding one_side
insert_line row w =
    if not (one_side row.debit_amount row.credit_amount)
    then violated ck_journal_lines_exactly_one_side
    else if any (λ r. r.journal_number == row.journal_number && r.line_index == row.line_index)
        w.journal_lines
    then violated uq_journal_lines_journal_number_line_index
    else committed tt (record w { journal_lines = w.journal_lines ++ row ∷ [] })

-- The next statement of a transaction.
abbrev pub next : {A B : Type 0} → Outcome A → (World → Outcome B) → Outcome B
next (committed a w) k = k w
next (violated c) k = violated c
next refused k = refused

-- `entry_number, enumerate(entry.lines)`: the row of a line, refused if an amount does not fit.
abbrev pub with_amounts : {A : Type 0} → Option ℤ → Option ℤ → (ℤ → ℤ → Outcome A) → Outcome A
with_amounts (some debit) (some credit) k = k debit credit
with_amounts (some debit) none k = refused
with_amounts none _ k = refused

-- The dict `lines_by_journal` of `list_entries`, and its `setdefault(number, []).append(line)`.
abbrev pub LinesByJournal : Type 0
LinesByJournal = List (ℕ × List LineRow)

unfoldable pub append_line : LineRow → LinesByJournal → LinesByJournal
append_line line [] = (line.journal_number, line ∷ []) ∷ []
append_line line ((n, lines) ∷ groups) =
    if n == line.journal_number
    then (n, lines ++ line ∷ []) ∷ groups
    else (n, lines) ∷ append_line line groups

unfoldable pub group_lines : List LineRow → LinesByJournal → LinesByJournal
unfolding append_line
group_lines [] groups = groups
group_lines (line ∷ lines) groups = group_lines lines (append_line line groups)

-- `lines_by_journal.get(number, [])`
unfoldable pub lines_of : ℕ → LinesByJournal → List LineRow
lines_of number [] = []
lines_of number ((n, lines) ∷ groups) = if n == number then lines else lines_of number groups

abbrev pub by_index : LineRow → LineRow → Bool
by_index r s = leb r.line_index s.line_index

-- ORDER BY journal_number, line_index
abbrev pub by_number_index : LineRow → LineRow → Bool
by_number_index r s =
    ltb r.journal_number s.journal_number
    || (r.journal_number == s.journal_number && leb r.line_index s.line_index)

module _ ⦃u : Platform⦄ where
  -- The loop of `save` over the lines, from an index on.
  unfoldable pub insert_lines : ℕ → ℕ → List JournalLine → World → Outcome Done
  unfolding insert_line
  insert_lines number index [] w = committed tt w
  insert_lines number index (line ∷ lines) w =
      let rest = insert_lines number (index + 1) lines in
      next
        (with_amounts (u.to_numeric line.debit_amount) (u.to_numeric line.credit_amount)
          λ debit credit.
            insert_line
              (record {
                journal_number = number;
                line_index = index;
                account = line.account;
                debit_amount = debit;
                credit_amount = credit;
              })
              w)
        rest

  -- The transaction of `save`.
  unfoldable pub save_entry : JournalEntry → Text → World → Outcome Done
  unfolding insert_entry insert_lines
  save_entry entry created_by w =
      next
        (insert_entry
          (record {
            journal_number = entry.journal_number;
            posting_date = entry.posting_date;
            description = entry.description;
            created_by = created_by;
          })
          w)
        (insert_lines entry.journal_number 0 entry.lines)

  -- A line of `_to_domain`.
  unfoldable pub line_to_domain : LineRow → Check JournalLine
  line_to_domain row = journal_line row.account row.debit_amount row.credit_amount

  -- `_to_domain`, at the present `now`.
  unfoldable pub to_domain : ℕ → EntryRow → List LineRow → Check JournalEntry
  to_domain now entry rows =
      ◌then◌ (pass_all line_to_domain rows)
        (λ lines. journal_entry now entry.journal_number entry.posting_date lines entry.description)

  -- The rest of `get_by_number`, once the entry's row was looked for.
  unfoldable pub load_entry : ℕ → Option EntryRow → M (Option JournalEntry)
  load_entry number none = pure none
  load_entry number (some row) = do
    now ← gets (λ w. w.now)
    lines ← gets (λ w. sort_by by_index (select (of_entry number) w.journal_lines))
    entry ← uncaught (to_domain now row lines)
    pure (some entry)

  -- `PostgresJournalRepo`
  abbrev pub postgres_journal_repo : JournalRepo
  postgres_journal_repo = record {
    save = λ entry created_by.
        execute (on_duplicate entry.journal_number) (save_entry entry created_by);
    get_by_number = λ number. do
      rows ← gets (λ w. select (has_number number) w.journal_entries)
      row ← scalar_one_or_none rows
      load_entry number row;
    list_entries = do
      now ← gets (λ w. w.now)
      entries ← gets (λ w. sort_by (λ r s. leb r.journal_number s.journal_number) w.journal_entries)
      lines ← gets (λ w. sort_by by_number_index w.journal_lines)
      let groups = group_lines lines []
      uncaught (pass_all (λ row. to_domain now row (lines_of row.journal_number groups)) entries);
    next_journal_number = λ w. (ok (w.sequence + 1), record w { sequence = w.sequence + 1 });
  }
