-- ===== src/Storage/JournalRepo/Grouping.antt =====
-- The dict of `list_entries` that groups the lines by their number, and its lookups.
use trutina.Base.{
  ℕ, ◌≡◌, refl, sym, ◌∙◌, inl, inr, true, false, Bool-cases, List, [], ◌∷◌, ◌++◌, arith,
  if◌then◌else◌, select, ◌==◌,
}
use mathlib.Core.List.{append-nil, append_assoc}
use trutina.Store.{LineRow}
use trutina.Storage.JournalRepo.{LinesByJournal, of_entry, append_line, group_lines, lines_of}

lines_of-append_line :
    (n : ℕ) (line : LineRow) (groups : LinesByJournal)
    → lines_of n (append_line line groups)
      ≡ lines_of n groups ++ (if of_entry n line then line ∷ [] else [])
unfolding append_line lines_of
lines_of-append_line n line [] = ground arith
lines_of-append_line n line ((m, lines) ∷ groups) =
    let rest = lines_of-append_line n line groups in
    elim (Bool-cases (m == line.journal_number)) [
      | inl same ↦ elim (Bool-cases (m == n)) [
        | inl here ↦ let own : of_entry n line ≡ true = ground arith in rw (same, here, own) refl
        | inr there ↦
            let other : of_entry n line ≡ false = ground arith in
            rw (same, there, other) (sym (append-nil _))
      ]
      | inr apart ↦ elim (Bool-cases (m == n)) [
        | inl here ↦
            let other : of_entry n line ≡ false = ground arith in
            rw (apart, here, other) (sym (append-nil _))
        | inr there ↦ rw (apart, there) rest
      ]
    ]

lines_of-group_lines_from :
    (n : ℕ) (rows : List LineRow) (groups : LinesByJournal)
    → lines_of n (group_lines rows groups) ≡ lines_of n groups ++ select (of_entry n) rows
unfolding group_lines
lines_of-group_lines_from n [] groups = sym (append-nil _)
lines_of-group_lines_from n (row ∷ rows) groups =
    lines_of-group_lines_from n rows (append_line row groups)
    ∙ rw (lines_of-append_line n row groups) (elim (Bool-cases (of_entry n row)) [
      | inl own ↦ rw own (append_assoc (lines_of n groups) (row ∷ []) (select (of_entry n) rows))
      | inr other ↦ rw (other, append-nil (lines_of n groups)) refl
    ])

-- The lines that list_entries finds for a number in its dict are the rows of that number, in their
-- order.
pub lines_of-group_lines :
    (n : ℕ) (rows : List LineRow) → lines_of n (group_lines rows []) ≡ select (of_entry n) rows
unfolding lines_of
lines_of-group_lines n rows = lines_of-group_lines_from n rows []
