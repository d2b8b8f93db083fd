-- ===== src/Cli/Parsers.antt =====
-- apps/cli/src/trutina/cli/features/*/parser.py. `Console` is what they take from Python: the upper
-- case of a character, `Decimal(s)` (none for `InvalidOperation`), `int(s)`
-- and `datetime.strptime(s, "%Y-%m-%d")`, with none for `ValueError`.
pub mod Lines
pub mod Categories
use trutina.Base.{
  ℕ, ◌-◌, ◌%◌, ◌<◌, ◌≡◌, Bool, Option, none, some, List, [], ◌∷◌, ◌++◌, if◌then◌else◌, leb, ltb,
  ◌==◌, ◌&&◌, ℤ, pos, length, find, Text, text, same, String,
}
use trutina.Platform.{Platform}
use trutina.Errors.{SchemaError, object, too_short, string}
use trutina.Rule.{strip}
use trutina.Schema.{Check, pass, fail, reject, reject_type, both, bounded_text, ◌>>=◌}
use trutina.Core.Account.{AccountCategory, CreateAccountInput, UpdateAccountInput}
use trutina.Core.Journal.{JournalLineInput, CreateJournalInput, check_amount, check_description}
use trutina.Auth.Email.{is_empty}

-- `str.upper` of an ASCII character.
abbrev pub ascii_raise : ℕ → ℕ
ascii_raise c = if leb 97 c && leb c 122 then c - 32 else c

-- A `Decimal`: a finite one, or a NaN or an infinity, with its text.
pub data Number : Type 0 where
  finite : ℤ → Number
  special : Text → Number

pub record Console : Type 0 where
  pub upper : ℕ → Text
  pub decimal : Text → Option Number
  pub int : Text → Option ℤ
  pub strptime : Text → Option ℕ
  pub upper_ascii : (c : ℕ) → c < 128 → upper c ≡ ascii_raise c ∷ []

-- What a parser comes to: a value, a `typer.BadParameter` with its message, or a `ValidationError`.
pub data Parsed (A : Type 0) : Type 0 where
  parsed : A → Parsed A
  bad_parameter : Text → Parsed A
  invalid : List SchemaError → Parsed A

-- A parser that goes on with the value of another.
abbrev pub and_then : {A B : Type 0} → Parsed A → (A → Parsed B) → Parsed B
and_then (parsed a) f = f a
and_then (bad_parameter message) f = bad_parameter message
and_then (invalid errors) f = invalid errors

-- The construction of a DTO.
abbrev pub construct : {A : Type 0} → Check A → Parsed A
construct (pass a) = parsed a
construct (fail errors) = invalid errors

-- `f"'{raw}'…"`
abbrev pub quoted : Text → Text → Text
quoted raw message = 39 ∷ raw ++ 39 ∷ message

abbrev cons_first : ℕ → List Text → List Text
cons_first c [] = (c ∷ []) ∷ []
cons_first c (part ∷ parts) = (c ∷ part) ∷ parts

-- `s.split(chr(separator))`
unfoldable pub split : ℕ → Text → List Text
split separator [] = [] ∷ []
split separator (c ∷ s) =
    let rest = split separator s in if c == separator then [] ∷ rest else cons_first c rest

-- `category.name`
unfoldable pub category_name : AccountCategory → Text
category_name AccountCategory.asset = text "ASSET"
category_name AccountCategory.liability = text "LIABILITY"
category_name AccountCategory.equity = text "EQUITY"
category_name AccountCategory.dividend = text "DIVIDEND"
category_name AccountCategory.revenue = text "REVENUE"
category_name AccountCategory.expense = text "EXPENSE"
category_name AccountCategory.drawing = text "DRAWING"

abbrev pub categories : List AccountCategory
categories =
    AccountCategory.asset ∷ AccountCategory.liability ∷ AccountCategory.equity
    ∷ AccountCategory.dividend ∷ AccountCategory.revenue ∷ AccountCategory.expense
    ∷ AccountCategory.drawing ∷ []

-- `AccountCategory[name]`: none for a `KeyError`.
unfoldable pub category_named : Text → Option AccountCategory
unfolding category_name
category_named name = find (λ c. same (category_name c) name) categories

abbrev pub category_message : Text → Text
category_message category = quoted category (
    text
      " is not a valid category. Choose from: Asset, Liability, Equity, Dividend, Revenue, Expense, Drawing.")

abbrev pub amount_message : Text → Text
amount_message raw = quoted raw (text " is not a valid decimal amount.")

abbrev pub date_message : Text → Text
date_message raw = quoted raw (text " is not a valid date. Use YYYY-MM-DD.")

abbrev pub line_message : Text → Text
line_message raw =
    quoted raw
      (text " is not a valid line. Expected format: 'Account:Debit:Credit', e.g. 'Cash:100:0'.")

-- `Field(ge=0)` on a `Decimal`, which Pydantic wants finite.
unfoldable pub check_decimal : String → Number → Check ℤ
unfolding check_amount
check_decimal loc (finite value) = check_amount loc value
check_decimal loc (special value) = reject_type (text "finite_number") loc (string value)

-- `JournalLineInput(…)`
unfoldable pub journal_line_input : Text → Number → Number → Check JournalLineInput
unfolding bounded_text check_decimal
journal_line_input account debit_amount credit_amount = do
  (a, (d, c)) ← both (bounded_text 2 100 "account" account) (
      both (check_decimal "debit_amount" debit_amount)
        (check_decimal "credit_amount" credit_amount))
  pass (record { account = a; debit_amount = d; credit_amount = c })

-- `CreateJournalInput(…)`
unfoldable pub create_journal_input :
    ℕ → List JournalLineInput → Option Text → Check CreateJournalInput
unfolding check_description
create_journal_input posting_date lines description = do
  (kept, note) ←
      both (if ltb (length lines) 2 then reject too_short "lines" object else pass lines)
        (check_description description)
  pass (record { posting_date = posting_date; lines = kept; description = note })

-- `CreateAccountInput(…)`
unfoldable pub create_account_input : Text → Text → AccountCategory → Check CreateAccountInput
unfolding bounded_text
create_account_input code name category = do
  (c, n) ← both (bounded_text 1 20 "code" code) (bounded_text 2 150 "name" name)
  pass (record { code = c; name = n; category = category })

-- A name that may be missing.
unfoldable pub optional_name : Option Text → Check (Option Text)
unfolding bounded_text
optional_name none = pass none
optional_name (some name) = do n ← bounded_text 2 150 "name" name; pass (some n)

-- `UpdateAccountInput(…)`
unfoldable pub update_account_input :
    Text → Option Text → Option AccountCategory → Check UpdateAccountInput
unfolding bounded_text optional_name
update_account_input code name category = do
  (c, n) ← both (bounded_text 1 20 "code" code) (optional_name name)
  pass (record { code = c; name = n; category = category })

-- `shared.util.default_posting_date()`: the midnight before the present.
unfoldable pub default_posting_date : ℕ → ℕ
default_posting_date now = now - now % 86400000000

module _ ⦃u : Platform⦄ ⦃k : Console⦄ where
  -- `s.upper()`, character by character
  unfoldable pub upper : Text → Text
  upper [] = []
  upper (c ∷ s) = k.upper c ++ upper s

  abbrev pub category_or_bad : Text → Option AccountCategory → Parsed AccountCategory
  category_or_bad category none = bad_parameter (category_message category)
  category_or_bad category (some c) = parsed c

  -- `_get_category`
  unfoldable pub get_category : Text → Parsed AccountCategory
  unfolding upper strip category_named
  get_category category = category_or_bad category (category_named (upper (strip category)))

  -- `parse_create_account`
  unfoldable pub parse_create_account : Text → Text → Text → Parsed CreateAccountInput
  unfolding strip get_category create_account_input
  parse_create_account code name category =
      and_then (get_category category)
        λ c. construct (create_account_input (strip code) (strip name) c)

  abbrev clean? : Option Text → Option Text
  clean? none = none
  clean? (some value) = some (strip value)

  abbrev get_category? : Option Text → Parsed (Option AccountCategory)
  get_category? none = parsed none
  get_category? (some category) = and_then (get_category category) λ c. parsed (some c)

  -- `parse_update_account`
  unfoldable pub parse_update_account : Text → Option Text → Option Text → Parsed UpdateAccountInput
  unfolding strip get_category update_account_input
  parse_update_account code name category =
      and_then (get_category? category)
        λ c. construct (update_account_input (strip code) (clean? name) c)

  abbrev amount_or_bad : Text → Option Number → Parsed Number
  amount_or_bad raw none = bad_parameter (amount_message raw)
  amount_or_bad raw (some amount) = parsed amount

  -- `_parse_amount`
  unfoldable pub parse_amount : Text → Parsed Number
  unfolding strip is_empty
  parse_amount raw =
      if is_empty (strip raw)
      then parsed (finite (pos 0))
      else amount_or_bad raw (k.decimal (strip raw))

  -- `parse_journal_line`
  unfoldable pub parse_journal_line : Text → Text → Text → Parsed JournalLineInput
  unfolding strip parse_amount journal_line_input
  parse_journal_line account debit_amount credit_amount =
      and_then (parse_amount debit_amount) λ debit.
        and_then (parse_amount credit_amount)
          λ credit. construct (journal_line_input (strip account) debit credit)

  abbrev line_of_parts : Text → List Text → Parsed JournalLineInput
  line_of_parts raw (account ∷ debit_amount ∷ credit_amount ∷ []) =
      parse_journal_line account debit_amount credit_amount
  line_of_parts raw _ = bad_parameter (line_message raw)

  -- `parse_line_spec`
  unfoldable pub parse_line_spec : Text → Parsed JournalLineInput
  unfolding split parse_journal_line
  parse_line_spec raw = line_of_parts raw (split 58 raw)

  abbrev date_or_bad : Text → Option ℕ → Parsed ℕ
  date_or_bad raw none = bad_parameter (date_message raw)
  date_or_bad raw (some date) = parsed date

  -- `parse_posting_date`, at the local time `now`
  unfoldable pub parse_posting_date : ℕ → Option Text → Parsed ℕ
  unfolding strip is_empty default_posting_date
  parse_posting_date now none = parsed (default_posting_date now)
  parse_posting_date now (some raw) =
      if is_empty (strip raw)
      then parsed (default_posting_date now)
      else date_or_bad raw (k.strptime (strip raw))

  -- `parse_create_journal`
  unfoldable pub parse_create_journal :
      ℕ → Option Text → List JournalLineInput → Option Text → Parsed CreateJournalInput
  unfolding parse_posting_date create_journal_input strip
  parse_create_journal now posting_date lines description =
      and_then (parse_posting_date now posting_date)
        λ date. construct (create_journal_input date lines (clean? description))

  abbrev number_or_bad : Text → Option ℤ → Parsed ℤ
  number_or_bad raw none = bad_parameter (quoted raw (text " is not a valid journal number."))
  number_or_bad raw (some number) = parsed number

  -- `parse_journal_number`
  unfoldable pub parse_journal_number : Text → Parsed ℤ
  unfolding strip
  parse_journal_number raw = number_or_bad raw (k.int (strip raw))

  -- `parse_account_identifier`
  unfoldable pub parse_account_identifier : Text → Text
  unfolding strip
  parse_account_identifier raw = strip raw

  abbrev as_of_or_bad : Text → Option ℕ → Parsed ℕ
  as_of_or_bad raw none =
      bad_parameter (quoted raw (text " is not a valid date. Use YYYY-MM-DD, e.g. 2025-01-31."))
  as_of_or_bad raw (some date) = parsed date

  -- `parse_as_of_date`
  unfoldable pub parse_as_of_date : Text → Parsed ℕ
  unfolding strip
  parse_as_of_date raw = as_of_or_bad raw (k.strptime (strip raw))
