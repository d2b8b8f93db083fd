-- ===== src/Core/Account.antt =====
-- packages/core/src/trutina/core/account/schemas/account.py and the DTOs of account/dtos.py.
pub mod Valid
pub mod Chart
pub mod Lookup
pub mod Repo
pub mod Service
use trutina.Base.{
  ℕ, Bool, true, false, ◌&&◌, Option, none, some, [], ◌∷◌, if◌then◌else◌, leb, length, Text,
}
use trutina.Platform.{Platform}
use trutina.Errors.{string, invalid_account_code, invalid_account_name}
use trutina.Schema.{Check, pass, reject, ◌>>=◌, both, bounded_text}
use trutina.Rule.{is_digit, clean_account_name}

pub data AccountCategory : Type 0 where
  asset liability equity dividend revenue expense drawing : AccountCategory

pub data NormalBalance : Type 0 where
  debit credit : NormalBalance

-- NORMAL_BALANCE_BY_CATEGORY
unfoldable pub normal_balance_by_category : AccountCategory → NormalBalance
normal_balance_by_category asset = debit
normal_balance_by_category expense = debit
normal_balance_by_category drawing = debit
normal_balance_by_category liability = credit
normal_balance_by_category equity = credit
normal_balance_by_category revenue = credit
normal_balance_by_category dividend = credit

pub record Account : Type 0 where
  pub code : Text
  pub name : Text
  pub category : AccountCategory

-- The property `Account.normal_balance`.
unfoldable pub normal_balance : Account → NormalBalance
unfolding normal_balance_by_category
normal_balance a = normal_balance_by_category a.category

unfoldable pub all_digits : Text → Bool
all_digits [] = true
all_digits (c ∷ s) = is_digit c && all_digits s

-- `re.fullmatch(r"[0-9]{4,6}", value)`
unfoldable pub matches_code : Text → Bool
unfolding all_digits
matches_code value = leb 4 (length value) && (leb (length value) 6 && all_digits value)

-- The field `code`: its bounds, then `validate_code`.
unfoldable pub check_code : Text → Check Text
unfolding matches_code bounded_text
check_code value = do
  code ← bounded_text 1 20 "code" value
  if matches_code code then pass code else reject invalid_account_code "code" (string code)

pub record AccountViewModel : Type 0 where
  pub code : Text
  pub name : Text
  pub category : AccountCategory
  pub normal_balance : NormalBalance

pub record CreateAccountInput : Type 0 where
  pub code : Text
  pub name : Text
  pub category : AccountCategory

pub record UpdateAccountInput : Type 0 where
  pub code : Text
  pub name : Option Text
  pub category : Option AccountCategory

module _ ⦃u : Platform⦄ where
  -- The field `name`: its bounds, on the text as it came in, then `validate_name`.
  unfoldable pub check_name : Text → Check Text
  unfolding bounded_text
  check_name value = do
    raw ← bounded_text 2 150 "name" value
    elim (clean_account_name raw) [
      | none ↦ reject invalid_account_name "name" (string raw)
      | some cleaned ↦ pass cleaned
    ]

  -- `Account(code=…, name=…, category=…)`
  unfoldable pub account : Text → Text → AccountCategory → Check Account
  account code name category = do
    (code', name') ← both (check_code code) (check_name name)
    pass (record { code = code'; name = name'; category = category })
