-- ===== src/Core/Journal.antt =====
-- packages/core/src/trutina/core/journal/schemas and the DTOs of journal/dtos.py. A moment is the
-- number of microseconds since the first day of year 1, and an amount a number of the platform's
-- smallest unit.
pub mod Repo
pub mod Service
pub mod Valid
use trutina.Base.{
  ℕ, Bool, true, false, Option, none, some, List, [], ◌∷◌, if◌then◌else◌, ltb, length, ℤ, pos,
  leb_ℤ, eqb_ℤ, total, Text, String,
}
use trutina.Platform.{Platform}
use trutina.Errors.{
  Value, string, decimal, integer, moment, object, invalid_account_name, invalid_line_amounts,
  greater_than, greater_than_equal, too_short, string_too_long, future_date, unbalanced_entry,
}
use trutina.Schema.{Check, pass, reject, ◌>>=◌, both, bounded_text}
use trutina.Rule.{clean_account_name, is_valid_line_amounts}

pub record JournalLine : Type 0 where
  pub account : Text
  pub debit_amount : ℤ
  pub credit_amount : ℤ

pub record JournalEntry : Type 0 where
  pub journal_number : ℕ
  pub posting_date : ℕ
  pub lines : List JournalLine
  pub description : Option Text

pub record JournalLineInput : Type 0 where
  pub account : Text
  pub debit_amount : ℤ
  pub credit_amount : ℤ

pub record CreateJournalInput : Type 0 where
  pub posting_date : ℕ
  pub lines : List JournalLineInput
  pub description : Option Text

pub record JournalLineViewModel : Type 0 where
  pub account : Text
  pub debit_amount : ℤ
  pub credit_amount : ℤ

pub record JournalViewModel : Type 0 where
  pub journal_number : ℕ
  pub posting_date : ℕ
  pub description : Option Text
  pub lines : List JournalLineViewModel
  pub total_debits : ℤ
  pub total_credits : ℤ
  pub is_balanced : Bool

-- The midnight of 2020-01-01: 737,424 days.
abbrev pub start_of_2020 : ℕ
start_of_2020 = 63713433600000000

-- `Field(ge=0)` on an amount.
unfoldable pub check_amount : String → ℤ → Check ℤ
check_amount loc value =
    if leb_ℤ (pos 0) value then pass value else reject greater_than_equal loc (decimal value)

-- `Field(gt=0)` on a journal number.
unfoldable pub check_number : ℕ → Check ℕ
check_number value =
    if ltb 0 value then pass value else reject greater_than "journal_number" (integer value)

-- `Field(gt=datetime(2020, 1, 1))`, then `validate_posting_date` against the present.
unfoldable pub check_posting_date : ℕ → ℕ → Check ℕ
check_posting_date now value =
    if ltb start_of_2020 value
    then if ltb now value then reject future_date "posting_date" (moment value) else pass value
    else reject greater_than "posting_date" (moment value)

-- `validate_line_amounts`
unfoldable pub validate_line_amounts : JournalLine → Check JournalLine
unfolding is_valid_line_amounts
validate_line_amounts line =
    if is_valid_line_amounts line.debit_amount line.credit_amount
    then pass line
    else reject invalid_line_amounts "" object

unfoldable pub total_debits : JournalEntry → ℤ
unfolding total
total_debits entry = total (λ line. line.debit_amount) entry.lines

unfoldable pub total_credits : JournalEntry → ℤ
unfolding total
total_credits entry = total (λ line. line.credit_amount) entry.lines

unfoldable pub is_balanced : JournalEntry → Bool
unfolding total_debits total_credits
is_balanced entry = eqb_ℤ (total_debits entry) (total_credits entry)

-- `validate_balances`
unfoldable pub validate_balances : JournalEntry → Check JournalEntry
validate_balances entry =
    if is_balanced entry then pass entry else reject unbalanced_entry "" object

-- `Field(min_length=2)` on the lines.
unfoldable pub check_lines : List JournalLine → Check (List JournalLine)
check_lines lines = if ltb (length lines) 2 then reject too_short "lines" object else pass lines

-- `Field(max_length=255)` on a description that may be missing.
unfoldable pub check_description : Option Text → Check (Option Text)
check_description none = pass none
check_description (some value) =
    if ltb 255 (length value)
    then reject string_too_long "description" (string value)
    else pass (some value)

-- `JournalEntry(…)`, at the present `now`.
unfoldable pub journal_entry : ℕ → ℕ → ℕ → List JournalLine → Option Text → Check JournalEntry
journal_entry now journal_number posting_date lines description = do
  (number, (date, (kept, note))) ← both (check_number journal_number) (
      both (check_posting_date now posting_date)
        (both (check_lines lines) (check_description description)))
  validate_balances
      (record { journal_number = number; posting_date = date; lines = kept; description = note })

module _ ⦃u : Platform⦄ where
  -- The field `account` of a line, a posting or a balance.
  unfoldable pub check_line_account : Text → Check Text
  unfolding bounded_text
  check_line_account value = do
    raw ← bounded_text 2 100 "account" value
    elim (clean_account_name raw) [
      | none ↦ reject invalid_account_name "account" (string raw)
      | some cleaned ↦ pass cleaned
    ]

  -- `JournalLine(…)`
  unfoldable pub journal_line : Text → ℤ → ℤ → Check JournalLine
  journal_line account debit credit = do
    (name, (d, c)) ←
        both (check_line_account account)
          (both (check_amount "debit_amount" debit) (check_amount "credit_amount" credit))
    validate_line_amounts (record { account = name; debit_amount = d; credit_amount = c })
