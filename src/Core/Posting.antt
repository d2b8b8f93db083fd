-- ===== src/Core/Posting.antt =====
-- packages/core/src/trutina/core/posting/schemas/ledger_posting.py and posting/dtos.py.
pub mod Repo
pub mod Service
pub mod Valid
use trutina.Base.{
  ℕ, Bool, true, false, Option, none, some, List, if◌then◌else◌, ℤ, pos, ltb_ℤ, Text,
}
use trutina.Platform.{Platform}
use trutina.Errors.{object, invalid_line_amounts}
use trutina.Schema.{Check, pass, reject, ◌>>=◌, both}
use trutina.Rule.{is_valid_line_amounts}
use trutina.Core.Journal.{check_line_account, check_amount, check_number, check_posting_date}

pub record LedgerPosting : Type 0 where
  pub account : Text
  pub debit_amount : ℤ
  pub credit_amount : ℤ
  pub journal_number : ℕ
  pub posting_date : ℕ

pub record PostingViewModel : Type 0 where
  pub account : Text
  pub debit_amount : Option ℤ
  pub credit_amount : Option ℤ
  pub journal_number : ℕ
  pub posting_date : ℕ

-- `LedgerPosting.is_debit`
unfoldable pub is_debit : LedgerPosting → Bool
is_debit posting = ltb_ℤ (pos 0) posting.debit_amount

-- `PostingViewModel.is_debit`
unfoldable pub view_is_debit : PostingViewModel → Bool
view_is_debit view = elim view.debit_amount [ none ↦ false | some amount ↦ true ]

-- `validate_amounts`
unfoldable pub validate_amounts : LedgerPosting → Check LedgerPosting
unfolding is_valid_line_amounts
validate_amounts posting =
    if is_valid_line_amounts posting.debit_amount posting.credit_amount
    then pass posting
    else reject invalid_line_amounts "" object

module _ ⦃u : Platform⦄ where
  -- `LedgerPosting(…)`, at the present `now`.
  unfoldable pub ledger_posting : ℕ → Text → ℤ → ℤ → ℕ → ℕ → Check LedgerPosting
  ledger_posting now account debit credit journal_number posting_date = do
    (name, (d, (c, (number, date)))) ← both (check_line_account account) (
        both (check_amount "debit_amount" debit) (
          both (check_amount "credit_amount" credit)
            (both (check_number journal_number) (check_posting_date now posting_date))))
    validate_amounts (record {
      account = name;
      debit_amount = d;
      credit_amount = c;
      journal_number = number;
      posting_date = date;
    })
