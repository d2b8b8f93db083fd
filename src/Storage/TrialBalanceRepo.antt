-- ===== src/Storage/TrialBalanceRepo.antt =====
-- storage_postgres/trial_balance/repository.py: one GROUP BY query over the table `postings`.
pub mod Totals
use trutina.Base.{
  ℕ, Bool, true, Option, none, some, List, [], ◌∷◌, if◌then◌else◌, leb, ℤ, ◌+ℤ◌, Text, same, select,
  sort_by,
}
use trutina.Platform.{Platform}
use trutina.Schema.{Check, pass_all}
use trutina.Core.TrialBalance.{AccountBalanceEntry, TrialBalanceRepo, account_balance_entry}
use trutina.Store.{PostingRow, World, ok, M, uncaught, gets, ◌>>=◌}

-- One row of the result, with the key that it is grouped by.
pub record Group : Type 0 where
  pub account_key : Text
  pub account : Text
  pub debit_total : ℤ
  pub credit_total : ℤ

-- `PostingModel.posting_date <= as_of_date`, if a date is given.
unfoldable pub in_scope : Option ℕ → PostingRow → Bool
in_scope none row = true
in_scope (some date) row = leb row.posting_date date

module _ ⦃u : Platform⦄ where
  -- A posting joins the group of its key: MIN(account), and the two sums.
  unfoldable pub add_to_groups : PostingRow → List Group → List Group
  add_to_groups row [] =
      record {
        account_key = row.account_key;
        account = row.account;
        debit_total = row.debit_amount;
        credit_total = row.credit_amount;
      }
      ∷ []
  add_to_groups row (g ∷ groups) =
      if same g.account_key row.account_key
      then record g {
        account = if u.collate g.account row.account then g.account else row.account;
        debit_total = g.debit_total +ℤ row.debit_amount;
        credit_total = g.credit_total +ℤ row.credit_amount;
      }
        ∷ groups
      else g ∷ add_to_groups row groups

  -- GROUP BY account_key
  unfoldable pub group_postings : List PostingRow → List Group → List Group
  unfolding add_to_groups
  group_postings [] groups = groups
  group_postings (row ∷ rows) groups = group_postings rows (add_to_groups row groups)

  abbrev pub by_account : Group → Group → Bool
  by_account g h = u.collate g.account h.account

  -- The query: WHERE, GROUP BY, ORDER BY.
  unfoldable pub balance_rows : Option ℕ → List PostingRow → List Group
  unfolding in_scope group_postings
  balance_rows as_of_date rows =
      sort_by by_account (group_postings (select (in_scope as_of_date) rows) [])

  -- `_to_domain`
  unfoldable pub to_domain : Group → Check AccountBalanceEntry
  to_domain g = account_balance_entry g.account g.debit_total g.credit_total

  -- `PostgresTrialBalanceRepo`
  abbrev pub postgres_trial_balance_repo : TrialBalanceRepo
  postgres_trial_balance_repo = record {
    get_account_balances = λ as_of_date. do
      rows ← gets (λ w. balance_rows as_of_date w.postings)
      uncaught (pass_all to_domain rows);
  }
