-- ===== src/Core/Account/Chart.antt =====
-- packages/core/src/trutina/core/account/schemas/chart.py: the chart with its two indices.
use trutina.Base.{Option, none, some, List, [], ◌∷◌, if◌then◌else◌, Text, same}
use trutina.Platform.{Platform}
use trutina.Errors.{ErrorCode, object, duplicate_account_code, duplicate_account_name}
use trutina.Schema.{Check, pass, reject, ◌>>=◌}
use trutina.Rule.{account_lookup_key}
use trutina.Core.Account.{Account}

-- A dict from text to account.
abbrev pub Index : Type 0
Index = List (Text × Account)

-- `index.get(key)`
unfoldable pub get : Text → Index → Option Account
get key [] = none
get key ((k, a) ∷ index) = if same k key then some a else get key index

-- The loop of a uniqueness validator: a key that is already in the index is refused.
unfoldable pub build_index : (Account → Text) → ErrorCode → List Account → Index → Check Index
build_index key duplicate [] index = pass index
build_index key duplicate (a ∷ accounts) index =
    let rest = build_index key duplicate accounts ((key a, a) ∷ index) in
    elim (get (key a) index) [ some _ ↦ reject duplicate "" object | none ↦ rest ]

pub record ChartOfAccounts : Type 0 where
  pub accounts : List Account
  pub by_code : Index
  pub by_name : Index

module _ ⦃u : Platform⦄ where
  -- `validate_unique_codes`
  unfoldable pub validate_unique_codes : List Account → Check Index
  validate_unique_codes accounts = build_index (λ a. a.code) duplicate_account_code accounts []

  -- `validate_unique_names`
  unfoldable pub validate_unique_names : List Account → Check Index
  validate_unique_names accounts =
      build_index (λ a. account_lookup_key a.name) duplicate_account_name accounts []

  -- `ChartOfAccounts(accounts=…)`
  unfoldable pub chart_of_accounts : List Account → Check ChartOfAccounts
  unfolding validate_unique_codes validate_unique_names
  chart_of_accounts accounts = do
    codes ← validate_unique_codes accounts
    names ← validate_unique_names accounts
    pass (record { accounts = accounts; by_code = codes; by_name = names })

  -- `ChartOfAccounts.get_by_name`
  unfoldable pub get_by_name : ChartOfAccounts → Text → Option Account
  unfolding get
  get_by_name chart name = get (account_lookup_key name) chart.by_name

  -- `ChartOfAccounts.get_by_code`
  unfoldable pub get_by_code : ChartOfAccounts → Text → Option Account
  unfolding get
  get_by_code chart code = get code chart.by_code
