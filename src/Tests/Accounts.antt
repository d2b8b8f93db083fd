-- ===== src/Tests/Accounts.antt =====
-- The chart of accounts on small tables.
use trutina.Base.{
  ◌≡◌, refl, true, false, none, some, [], ◌∷◌, Text, text, arith, any, Text-discrete,
}
use trutina.Schema.{bounded_text}
use trutina.Rule.{
  scan_name, matches_name, lstrip, cons_unless_blank, rstrip, strip, clean_account_name, casefold,
  account_lookup_key, is_non_blank_actor,
}
use trutina.Core.Account.{
  Account, check_code, check_name, account, UpdateAccountInput, AccountCategory, CreateAccountInput,
  matches_code, all_digits,
}
use trutina.Core.Account.Service.{create_account, update_account, delete_account, check_postings}
use trutina.Store.{AccountRow, ok}
use trutina.Storage.AccountRepo.{has_key, to_domain, postgres_account_repo}
use trutina.Storage.AccountRepo.Table.{IsWritten, IsChart}
use trutina.Storage.{scalar_one_or_none}
use trutina.Ledger.Reading.{SameState}
use trutina.Ledger.Changes.{Deletes, delete_account_lem, Updates, update_account_lem}
use trutina.Schema.{pass}
use trutina.Base.{find, same}
use trutina.Core.Account.Chart.{
  ChartOfAccounts, get, build_index, validate_unique_codes, validate_unique_names,
  chart_of_accounts, get_by_name, get_by_code,
}
use trutina.Core.Account.Lookup.{chart_of_accounts-finds}
use trutina.Ledger.Opens.{create_account-returns}
use trutina.Core.Account.Service.{to_view_model}
use trutina.Ledger.Accounts.{with_account, Creates, create_account_lem}
use trutina.Tests.{cash, ascii, ann, sales, cash_row, with_entry}

abbrev sales_row : AccountRow
sales_row = record {
  code = text "4000";
  name = sales;
  name_key = text "sales";
  category = AccountCategory.revenue;
}

cash_row-IsWritten : IsWritten cash_row
unfolding scan_name matches_name lstrip cons_unless_blank rstrip strip clean_account_name casefold
    account_lookup_key matches_code all_digits
cash_row-IsWritten = record { code = refl; name = refl; fits = omega arith; key = refl }

sales_row-IsWritten : IsWritten sales_row
unfolding scan_name matches_name lstrip cons_unless_blank rstrip strip clean_account_name casefold
    account_lookup_key matches_code all_digits
sales_row-IsWritten = record { code = refl; name = refl; fits = omega arith; key = refl }

pub cash-IsChart : IsChart (cash_row ∷ [])
cash-IsChart = record { codes = (refl, tt); keys = (refl, tt); written = (cash_row-IsWritten, tt) }

abbrev new_sales : CreateAccountInput
new_sales = record { code = text "4000"; name = text " Sales"; category = AccountCategory.revenue }

create_account_lem_example :
    Creates none new_sales ann with_entry
      (create_account postgres_account_repo none new_sales ann with_entry)
create_account_lem_example = create_account_lem none new_sales ann with_entry cash-IsChart

abbrev to_petty : UpdateAccountInput
to_petty = record { code = text "1000"; name = some (text "Petty cash"); category = none }

update_account_lem_example :
    Updates none to_petty ann with_entry
      (update_account postgres_account_repo none to_petty ann with_entry)
update_account_lem_example = update_account_lem none to_petty ann with_entry cash-IsChart

unchecked :
    (name : Text)
    → SameState with_entry (check_postings postgres_account_repo none none name with_entry)
unfolding check_postings
unchecked name = refl

delete_account_lem_example :
    Deletes none
      (text "1000")
      ann
      with_entry
      (delete_account postgres_account_repo none (text "1000") ann with_entry)
delete_account_lem_example =
    delete_account_lem none (text "1000") ann with_entry cash-IsChart unchecked

abbrev cash_account : Account
cash_account = record { code = text "1000"; name = cash; category = AccountCategory.asset }

reads_cash :
    postgres_account_repo.get_by_code (text "1000") with_entry
    ≡ (ok (some cash_account), with_entry)
unfolding scan_name matches_name lstrip cons_unless_blank rstrip strip clean_account_name
    bounded_text matches_code all_digits check_code check_name account scalar_one_or_none to_domain
    Text-discrete
reads_cash = refl

cash_key_taken : any (has_key (account_lookup_key (text "CASH"))) (cash_row ∷ []) ≡ true
unfolding casefold account_lookup_key Text-discrete
cash_key_taken = refl

ann_named : is_non_blank_actor ann ≡ true
unfolding is_non_blank_actor lstrip cons_unless_blank rstrip strip
ann_named = refl

abbrev sales_account : Account
sales_account = record { code = text "4000"; name = sales; category = AccountCategory.revenue }

new_sales-built : account (text "4000") (text " Sales") AccountCategory.revenue ≡ pass sales_account
unfolding scan_name matches_name lstrip cons_unless_blank rstrip strip clean_account_name
    bounded_text matches_code all_digits check_code check_name account
new_sales-built = refl

spaced_key_free : any (has_key (account_lookup_key (text " Sales"))) (cash_row ∷ []) ≡ false
unfolding casefold account_lookup_key Text-discrete
spaced_key_free = refl

sales_key_free : any (has_key (account_lookup_key sales)) (cash_row ∷ []) ≡ false
unfolding casefold account_lookup_key Text-discrete
sales_key_free = refl

create_account-returns_example :
    create_account postgres_account_repo none new_sales ann with_entry
    ≡ (ok (to_view_model sales_account), with_account sales_account ann with_entry)
unfolding Text-discrete
create_account-returns_example =
    create_account-returns none new_sales ann with_entry sales_account cash-IsChart ann_named refl
      spaced_key_free new_sales-built sales_key_free

abbrev small_chart : ChartOfAccounts
small_chart = record {
  accounts = cash_account ∷ sales_account ∷ [];
  by_code = (text "4000", sales_account) ∷ (text "1000", cash_account) ∷ [];
  by_name = (text "sales", sales_account) ∷ (text "cash", cash_account) ∷ [];
}

small_chart-built : chart_of_accounts (cash_account ∷ sales_account ∷ []) ≡ pass small_chart
unfolding chart_of_accounts validate_unique_codes validate_unique_names build_index get casefold
    account_lookup_key Text-discrete
small_chart-built = refl

chart_of_accounts-finds_example :
    (small_chart.accounts ≡ cash_account ∷ sales_account ∷ [])
    × (get_by_name small_chart (text "CASH")
        ≡ find
            (λ a. same (account_lookup_key a.name) (account_lookup_key (text "CASH")))
            (cash_account ∷ sales_account ∷ []))
    × (get_by_code small_chart (text "4000")
        ≡ find (λ a. same a.code (text "4000")) (cash_account ∷ sales_account ∷ []))
chart_of_accounts-finds_example =
    chart_of_accounts-finds (cash_account ∷ sales_account ∷ []) small_chart (text "CASH")
      (text "4000") small_chart-built
