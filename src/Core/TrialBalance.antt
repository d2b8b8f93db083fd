-- ===== src/Core/TrialBalance.antt =====
-- packages/core/src/trutina/core/trial_balance: the balance rows, the report and its service.
use trutina.Base.{ℕ, Bool, Option, List, length, ℤ, eqb_ℤ, total, Text}
use trutina.Platform.{Platform}
use trutina.Schema.{Check, pass, ◌>>=◌ as ◌then◌, both}
use trutina.Core.Journal.{check_line_account, check_amount}
use trutina.Store.{M, pure, write_log, ◌>>=◌, ◌>>◌, trial_balance_generated}

pub record AccountBalanceEntry : Type 0 where
  pub account : Text
  pub debit_total : ℤ
  pub credit_total : ℤ

pub record TrialBalanceViewModel : Type 0 where
  pub entries : List AccountBalanceEntry
  pub as_of_date : Option ℕ

unfoldable pub total_debits : TrialBalanceViewModel → ℤ
unfolding total
total_debits view = total (λ entry. entry.debit_total) view.entries

unfoldable pub total_credits : TrialBalanceViewModel → ℤ
unfolding total
total_credits view = total (λ entry. entry.credit_total) view.entries

unfoldable pub is_balanced : TrialBalanceViewModel → Bool
unfolding total_debits total_credits
is_balanced view = eqb_ℤ (total_debits view) (total_credits view)

-- The contract of trial_balance/repo.py.
pub record TrialBalanceRepo : Type 0 where
  pub get_account_balances : Option ℕ → M (List AccountBalanceEntry)

-- `TrialBalanceService.get_trial_balance`
unfoldable pub get_trial_balance : TrialBalanceRepo → Option ℕ → M TrialBalanceViewModel
get_trial_balance repo as_of_date = do
  entries ← repo.get_account_balances as_of_date
  write_log (trial_balance_generated (length entries) as_of_date)
  pure (record { entries = entries; as_of_date = as_of_date })

module _ ⦃u : Platform⦄ where
  -- `AccountBalanceEntry(…)`
  unfoldable pub account_balance_entry : Text → ℤ → ℤ → Check AccountBalanceEntry
  account_balance_entry account debit credit =
      ◌then◌
        (both (check_line_account account)
          (both (check_amount "debit_total" debit) (check_amount "credit_total" credit)))
        λ (name, (d, c)). pass (record { account = name; debit_total = d; credit_total = c })
