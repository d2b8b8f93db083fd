-- ===== src/Core/Posting/Valid.antt =====
-- What a validated posting satisfies.
use trutina.Base.{ℕ, ◌≡◌, true, some, arith, ℤ, Text}
use trutina.Platform.{Platform}
use trutina.Schema.{pass}
use trutina.Rule.{clean_account_name, is_valid_line_amounts}
use trutina.Core.Journal.{check_amount, check_number, check_posting_date, check_line_account}
use trutina.Core.Journal.Valid.{
  check_amount-pass, check_number-pass, check_posting_date-pass, check_line_account-pass,
}
use trutina.Core.Posting.{LedgerPosting, ledger_posting, validate_amounts}

module _ ⦃u : Platform⦄ where
  -- The fields of a constructed posting passed their checks, and the amounts the model validator.
  pub ledger_posting-inv :
      (now : ℕ) (account : Text) (debit credit : ℤ) (number date : ℕ) (p : LedgerPosting)
      → ledger_posting now account debit credit number date ≡ pass p
      → (check_line_account account ≡ pass p.account)
        × (check_amount "debit_amount" debit ≡ pass p.debit_amount)
        × (check_amount "credit_amount" credit ≡ pass p.credit_amount)
        × (check_number number ≡ pass p.journal_number)
        × (check_posting_date now date ≡ pass p.posting_date)
        × (is_valid_line_amounts p.debit_amount p.credit_amount ≡ true)
  unfolding ledger_posting validate_amounts
  ledger_posting-inv now account debit credit number date p h = ground arith

  -- A posting that is constructed carries the cleaned account name, and its amounts, number and
  -- date unchanged.
  pub ledger_posting-pass :
      (now : ℕ) (account : Text) (debit credit : ℤ) (number date : ℕ) (p : LedgerPosting)
      → ledger_posting now account debit credit number date ≡ pass p
      → (clean_account_name account ≡ some p.account)
        × (p.debit_amount ≡ debit)
        × (p.credit_amount ≡ credit)
        × (p.journal_number ≡ number)
        × (p.posting_date ≡ date)
  ledger_posting-pass now account debit credit number date p h =
      let (a, d, c, n, t, side) = ledger_posting-inv now account debit credit number date p h in
      let (_, _, cleaned) = check_line_account-pass account a in
      let (same_debit, _) = check_amount-pass "debit_amount" debit d in
      let (same_credit, _) = check_amount-pass "credit_amount" credit c in
      let (same_number, _) = check_number-pass number n in
      let (same_date, _, _) = check_posting_date-pass now date t in
      (cleaned, same_debit, same_credit, same_number, same_date)
