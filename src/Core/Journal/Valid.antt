-- ===== src/Core/Journal/Valid.antt =====
-- What validated lines and entries satisfy.
use trutina.Base.{
  zero, suc, negsuc, ◌≢◌, ◌⊎◌, inl, inr, ℕ, ◌≤◌, ◌<◌, ◌≡◌, refl, true, Option, none, some, List,
  arith, length, ℤ, pos, ◌≤ℤ◌, eqb_ℤ→eq, sum, total-sum, ◌∙◌, sym, Text, String,
}
use trutina.Platform.{Platform}
use trutina.Schema.{pass}
use trutina.Rule.{clean_account_name, is_valid_line_amounts}
use trutina.Core.Journal.{
  JournalLine, JournalEntry, check_amount, check_number, check_posting_date, check_lines,
  check_description, check_line_account, journal_line, journal_entry, validate_balances,
  is_balanced, total_debits, total_credits, start_of_2020, validate_line_amounts,
}

pub check_posting_date-pass :
    (now value : ℕ) {d : ℕ}
    → check_posting_date now value ≡ pass d
    → (d ≡ value) × (start_of_2020 < value) × (value ≤ now)
unfolding check_posting_date
check_posting_date-pass now value h = ground arith

pub check_amount-pass :
    (loc : String) (value : ℤ) {v : ℤ}
    → check_amount loc value ≡ pass v
    → (v ≡ value) × (pos 0 ≤ℤ value)
unfolding check_amount
check_amount-pass loc value h = ground arith

pub check_number-pass :
    (value : ℕ) {v : ℕ} → check_number value ≡ pass v → (v ≡ value) × (0 < value)
unfolding check_number
check_number-pass value h = ground arith

check_lines-pass :
    (lines : List JournalLine) {l : List JournalLine}
    → check_lines lines ≡ pass l
    → (l ≡ lines) × (2 ≤ length lines)
unfolding check_lines
check_lines-pass lines h = ground arith

check_description-pass :
    (memo : Option Text) {n : Option Text} → check_description memo ≡ pass n → n ≡ memo
unfolding check_description
check_description-pass none h = ground arith
check_description-pass (some value) h = ground arith

validate_balances-pass :
    (entry : JournalEntry) {e : JournalEntry}
    → validate_balances entry ≡ pass e
    → (e ≡ entry) × (is_balanced entry ≡ true)
unfolding validate_balances
validate_balances-pass entry h = ground arith

one_sided :
    (debit credit : ℤ)
    → pos 0 ≤ℤ debit
    → pos 0 ≤ℤ credit
    → is_valid_line_amounts debit credit ≡ true
    → ((debit ≢ pos 0) × (credit ≡ pos 0)) ⊎ ((debit ≡ pos 0) × (credit ≢ pos 0))
unfolding is_valid_line_amounts
one_sided (pos zero) (pos zero) d c h = ground arith
one_sided (pos zero) (pos (suc n)) d c h = inr (refl, λ e. ground arith)
one_sided (pos (suc n)) (pos zero) d c h = inl (λ e. ground arith, refl)
one_sided (pos (suc n)) (pos (suc m)) d c h = ground arith
one_sided (negsuc n) c' d c h = absurd (omega arith)
one_sided (pos n) (negsuc m) d c h = absurd (omega arith)

fields-inv :
    (now number date : ℕ) (lines : List JournalLine) (memo : Option Text) (e : JournalEntry)
    → journal_entry now number date lines memo ≡ pass e
    → (check_number number ≡ pass e.journal_number)
      × (check_posting_date now date ≡ pass e.posting_date)
      × (check_lines lines ≡ pass e.lines)
      × (check_description memo ≡ pass e.description)
      × (is_balanced e ≡ true)
unfolding journal_entry validate_balances
fields-inv now number date lines memo e h = ground arith

-- A journal entry that is constructed carries its arguments unchanged, has a positive number, a
-- date after 2020-01-01 that is not in the future, at least two lines, and equal sums of debits and
-- credits.
pub journal_entry-pass :
    (now number date : ℕ) (lines : List JournalLine) (memo : Option Text) (e : JournalEntry)
    → journal_entry now number date lines memo ≡ pass e
    → (e.journal_number ≡ number)
      × (e.posting_date ≡ date)
      × (e.lines ≡ lines)
      × (e.description ≡ memo)
      × (0 < number)
      × (start_of_2020 < date)
      × (date ≤ now)
      × (2 ≤ length lines)
      × (sum (λ l. l.debit_amount) e.lines ≡ sum (λ l. l.credit_amount) e.lines)
unfolding is_balanced
journal_entry-pass now number date lines memo e h =
    let (n, d, l, t, balanced) = fields-inv now number date lines memo e h in
    let (same_number, positive) = check_number-pass number n in
    let (same_date, late, past) = check_posting_date-pass now date d in
    let (same_lines, enough) = check_lines-pass lines l in
    (
      same_number,
      same_date,
      same_lines,
      check_description-pass memo t,
      positive,
      late,
      past,
      enough,
      sym (total-sum (λ l. l.debit_amount) e.lines)
          ∙ eqb_ℤ→eq (total_debits e) (total_credits e) balanced
          ∙ total-sum (λ l. l.credit_amount) e.lines,
    )

module _ ⦃u : Platform⦄ where
  pub check_line_account-pass :
      (value : Text) {n : Text}
      → check_line_account value ≡ pass n
      → (2 ≤ length value) × (length value ≤ 100) × (clean_account_name value ≡ some n)
  unfolding check_line_account
  check_line_account-pass value h = ground arith

  line_fields-inv :
      (account : Text) (debit credit : ℤ) (l : JournalLine)
      → journal_line account debit credit ≡ pass l
      → (check_line_account account ≡ pass l.account)
        × (check_amount "debit_amount" debit ≡ pass l.debit_amount)
        × (check_amount "credit_amount" credit ≡ pass l.credit_amount)
        × (is_valid_line_amounts l.debit_amount l.credit_amount ≡ true)
  unfolding journal_line validate_line_amounts
  line_fields-inv account debit credit l h = ground arith

  -- A journal line that is constructed carries the cleaned account name and its amounts unchanged,
  -- neither of them negative and exactly one of them zero.
  pub journal_line-pass :
      (account : Text) (debit credit : ℤ) (l : JournalLine)
      → journal_line account debit credit ≡ pass l
      → (clean_account_name account ≡ some l.account)
        × (l.debit_amount ≡ debit)
        × (l.credit_amount ≡ credit)
        × (pos 0 ≤ℤ debit)
        × (pos 0 ≤ℤ credit)
        × (((debit ≢ pos 0) × (credit ≡ pos 0)) ⊎ ((debit ≡ pos 0) × (credit ≢ pos 0)))
  unfolding is_valid_line_amounts
  journal_line-pass account debit credit l h =
      let (a, d, c, side) = line_fields-inv account debit credit l h in
      let (_, _, cleaned) = check_line_account-pass account a in
      let (same_debit, debit_low) = check_amount-pass "debit_amount" debit d in
      let (same_credit, credit_low) = check_amount-pass "credit_amount" credit c in
      (
        cleaned,
        same_debit,
        same_credit,
        debit_low,
        credit_low,
        one_sided debit credit debit_low credit_low (rw (same_debit, same_credit) at side),
      )
