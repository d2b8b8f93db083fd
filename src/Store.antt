-- ===== src/Store.antt =====
-- The state that the services share: the tables of packages/storage-postgres (one row type for each
-- model.py), the log, and the clock that `datetime.now()` and the database's `now()` read. A service
-- or repository call takes the state and returns a result with the new state; a transaction is one
-- step, and takes effect as a whole or not at all.
use trutina.Base.{ℕ, Option, List, [], ◌∷◌, ◌++◌, ℤ, Text, Bool, true, false}
use trutina.Errors.{Error, schema_error, validation, unknown}
use trutina.Schema.{Check, pass, fail}
use trutina.Core.Account.{AccountCategory}

pub record AccountRow : Type 0 where
  pub code : Text
  pub name : Text
  pub name_key : Text
  pub category : AccountCategory

pub data AuditAction : Type 0 where
  create update delete : AuditAction

-- The entity is "account" in every row that the source writes.
pub record AuditRow : Type 0 where
  pub entity : Text
  pub entity_key : Text
  pub action : AuditAction
  pub actor : Text

pub record EntryRow : Type 0 where
  pub journal_number : ℕ
  pub posting_date : ℕ
  pub description : Option Text
  pub created_by : Text

pub record LineRow : Type 0 where
  pub journal_number : ℕ
  pub line_index : ℕ
  pub account : Text
  pub debit_amount : ℤ
  pub credit_amount : ℤ

pub record PostingRow : Type 0 where
  pub account : Text
  pub account_key : Text
  pub debit_amount : ℤ
  pub credit_amount : ℤ
  pub journal_number : ℕ
  pub posting_date : ℕ
  pub line_index : ℕ
  pub created_by : Text

-- A line of the log: the event with its context.
pub data LogRecord : Type 0 where
  account_created : Text → AccountCategory → LogRecord
  account_updated account_deleted : Text → LogRecord
  journal_created posting_created : ℕ → ℕ → LogRecord
  trial_balance_generated : ℕ → Option ℕ → LogRecord

pub record World : Type 0 where
  pub now : ℕ
  pub accounts : List AccountRow
  pub audit_events : List AuditRow
  pub journal_entries : List EntryRow
  pub journal_lines : List LineRow
  -- the last number that the sequence of `journal_number` gave out
  pub sequence : ℕ
  pub postings : List PostingRow
  pub log : List LogRecord

pub data Result (A : Type 0) : Type 0 where
  ok : A → Result A
  raise : Error → Result A

abbrev pub M : Type 0 → Type 0
M A = World → Result A × World

abbrev pub Done : Type 0
Done = Unit {0}

module _ {A : Type 0} where
  abbrev pub pure : A → M A
  pure a w = (ok a, w)

  abbrev pub throw : Error → M A
  throw e w = (raise e, w)

  -- A Pydantic failure that is not caught.
  abbrev pub uncaught : Check A → M A
  uncaught (pass a) w = (ok a, w)
  uncaught (fail e) w = (raise (schema_error e), w)

  -- `except ValidationError as exc: raise ValidationAppError.validation(exc)`
  abbrev pub translated : Check A → M A
  translated (pass a) w = (ok a, w)
  translated (fail e) w = (raise (validation e), w)

  abbrev pub gets : (World → A) → M A
  gets f w = (ok (f w), w)

-- What follows a call, given what the call came to.
abbrev pub resume : {A B : Type 0} → Result A × World → (A → M B) → Result B × World
resume (ok a, w) f = f a w
resume (raise e, w) f = (raise e, w)

infixl 5 ◌>>=◌ ◌>>◌
abbrev pub ◌>>=◌ : {A B : Type 0} → M A → (A → M B) → M B
◌>>=◌ m f w = resume (m w) f

abbrev pub ◌>>◌ : {B : Type 0} → M Done → M B → M B
m >> k = m >>= λ _. k

abbrev pub throw_if : Bool → Error → M Done
throw_if true e w = (raise e, w)
throw_if false e w = (ok tt, w)

abbrev pub write_log : LogRecord → M Done
write_log r w = (ok tt, record w { log = w.log ++ r ∷ [] })

-- The constraints that the tables declare.
pub data Constraint : Type 0 where
  uq_accounts_code uq_accounts_name_key : Constraint
  pk_journal_entries ck_journal_entries_posting_date_range : Constraint
  uq_journal_lines_journal_number_line_index ck_journal_lines_exactly_one_side : Constraint
  uq_postings_journal_number_line_index ck_postings_exactly_one_side : Constraint
  ck_postings_posting_date_range fk_postings_journal_number : Constraint

-- How a transaction ends: it commits, a constraint stops it (`IntegrityError`), or the database
-- refuses a value (another `SQLAlchemyError`).
pub data Outcome (A : Type 0) : Type 0 where
  committed : A → World → Outcome A
  violated : Constraint → Outcome A
  refused : Outcome A

-- What a caller sees of a transaction's end. What did not commit leaves the state alone.
abbrev pub settle : {A : Type 0} → (Constraint → Error) → World → Outcome A → Result A × World
settle on_integrity w (committed a w') = (ok a, w')
settle on_integrity w (violated c) = (raise (on_integrity c), w)
settle on_integrity w refused = (raise unknown, w)

-- A transaction run through the executor, with the repository's handler for `IntegrityError`.
abbrev pub execute : {A : Type 0} → (Constraint → Error) → (World → Outcome A) → M A
execute on_integrity body w = settle on_integrity w (body w)
