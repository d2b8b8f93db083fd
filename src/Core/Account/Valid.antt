-- ===== src/Core/Account/Valid.antt =====
-- What a validated account satisfies.
use trutina.Base.{◌≤◌, ◌≡◌, true, some, arith, length, Text}
use trutina.Platform.{Platform}
use trutina.Schema.{pass}
use trutina.Rule.{strip, clean_account_name}
use trutina.Rule.Name.{IsAccountName}
use native.Mathlib.Nat.{le_trans}
use trutina.Rule.Clean.{length-strip, clean_account_name-clean}
use trutina.Core.Account.{Account, AccountCategory, account, matches_code, check_code, check_name}

module _ ⦃u : Platform⦄ where
  check_code-pass :
      (value : Text) {c : Text}
      → check_code value ≡ pass c
      → (c ≡ value) × (matches_code value ≡ true)
  unfolding check_code
  check_code-pass value h = ground arith

  check_name-pass :
      (value : Text) {n : Text}
      → check_name value ≡ pass n
      → (2 ≤ length value) × (length value ≤ 150) × (clean_account_name value ≡ some n)
  unfolding check_name
  check_name-pass value h = ground arith

  pub account-inv :
      (code name : Text) (category : AccountCategory) {a : Account}
      → account code name category ≡ pass a
      → (check_code code ≡ pass a.code) × (check_name name ≡ pass a.name) × (a.category ≡ category)
  unfolding account
  account-inv code name category h = ground arith

  -- An account that is constructed has its code unchanged, in the format of the chart, its category
  -- unchanged, and the stripped name, which is an account name, its own cleaned form and at most
  -- 150 characters long.
  pub account-pass :
      (code name : Text) (category : AccountCategory) (a : Account)
      → account code name category ≡ pass a
      → (a.code ≡ code)
        × (matches_code a.code ≡ true)
        × (a.name ≡ strip name)
        × (clean_account_name a.name ≡ some a.name)
        × (length a.name ≤ 150)
        × (a.category ≡ category)
        × IsAccountName a.name
  account-pass code name category a h =
      let (c, n, k) = account-inv code name category h in
      let (same_code, format) = check_code-pass code c in
      let (low, high, cleaned) = check_name-pass name n in
      let (stripped, language, again) = clean_account_name-clean name a.name cleaned in
      (
        same_code,
        rw same_code format,
        stripped,
        again,
        rw stripped (le_trans (length-strip name) high),
        k,
        language,
      )
