-- ===== src/Storage/AccountRepo.antt =====
-- storage_postgres/account/repository.py over the tables `accounts` and `audit_events`.
pub mod Table
pub mod Reads
use trutina.Base.{
  ◌≡◌, Bool, true, false, not, ◌&&◌, Option, none, some, List, [], ◌∷◌, ◌++◌, if◌then◌else◌, Text,
  text, same, select, any,
}
use trutina.Platform.{Platform}
use trutina.Errors.{
  Error, string, conflict, unknown, not_found, duplicate_account_code, duplicate_account_name,
  unknown_account,
}
use trutina.Rule.{account_lookup_key}
use trutina.Schema.{Check, pass_all}
use trutina.Core.Account.{Account, account}
use trutina.Core.Account.Repo.{AccountRepo}
use trutina.Store.{
  AccountRow, AuditRow, AuditAction, create, update, delete, World, Result, ok, raise, M, Done,
  pure, throw, throw_if, uncaught, gets, ◌>>=◌, ◌>>◌, Constraint, uq_accounts_code,
  uq_accounts_name_key, Outcome, committed, violated, execute,
}
use trutina.Storage.{scalar_one_or_none}

-- `_audit_row`
unfoldable pub audit_row : AuditAction → Text → Text → AuditRow
audit_row action code actor = record {
  entity = text "account";
  entity_key = code;
  action = action;
  actor = actor;
}

-- `_on_duplicate`
unfoldable pub on_duplicate : Text → Text → Constraint → Error
unfolding conflict unknown
on_duplicate code name uq_accounts_code =
    conflict duplicate_account_code (text "account") (text "code") (string code)
on_duplicate code name uq_accounts_name_key =
    conflict duplicate_account_name (text "account") (text "name") (string name)
on_duplicate code name _ = unknown

abbrev pub has_code : Text → AccountRow → Bool
has_code code row = same row.code code

abbrev pub has_key : Text → AccountRow → Bool
has_key key row = same row.name_key key

-- INSERT into `accounts`, under the unique constraints on `code` and `name_key`.
unfoldable pub insert_account : AccountRow → AuditRow → World → Outcome Done
insert_account row event w =
    if any (has_code row.code) w.accounts
    then violated uq_accounts_code
    else if any (has_key row.name_key) w.accounts
    then violated uq_accounts_name_key
    else committed tt (record w {
      accounts = w.accounts ++ row ∷ [];
      audit_events = w.audit_events ++ event ∷ [];
    })

-- The rows with the row of a code replaced.
unfoldable pub replace_account : AccountRow → List AccountRow → List AccountRow
replace_account row [] = []
replace_account row (r ∷ rows) = (if has_code row.code r then row else r) ∷ replace_account row rows

-- UPDATE of the row with a code; another row with the new key stops it.
unfoldable pub update_account : AccountRow → AuditRow → World → Outcome (Option Done)
unfolding replace_account
update_account row event w =
    if not (any (has_code row.code) w.accounts)
    then committed none w
    else if any (λ r. not (has_code row.code r) && has_key row.name_key r) w.accounts
    then violated uq_accounts_name_key
    else committed (some tt) (record w {
      accounts = replace_account row w.accounts;
      audit_events = w.audit_events ++ event ∷ [];
    })

-- DELETE of the row with a code.
unfoldable pub delete_account : Text → AuditRow → World → Outcome Bool
delete_account code event w =
    if not (any (has_code code) w.accounts)
    then committed false w
    else committed true (record w {
      accounts = select (λ r. not (has_code code r)) w.accounts;
      audit_events = w.audit_events ++ event ∷ [];
    })

-- A row that does not exist is reported by the code of the account.
abbrev pub or_unknown_account : Text → Option Done → M Done
or_unknown_account code (some _) = pure tt
or_unknown_account code none = throw (not_found unknown_account (text "account") (string code))

abbrev is_some : {A : Type 0} → Option A → Bool
is_some none = false
is_some (some a) = true

module _ ⦃u : Platform⦄ where
  unfoldable pub account_row : Account → AccountRow
  account_row a = record {
    code = a.code;
    name = a.name;
    name_key = account_lookup_key a.name;
    category = a.category;
  }

  -- `_to_domain`: the row is validated again.
  unfoldable pub to_domain : AccountRow → Check Account
  to_domain row = account row.code row.name row.category

  -- The comprehension of `list_all`: the first row that fails raises.
  unfoldable pub to_domain_all : List AccountRow → Check (List Account)
  unfolding to_domain
  to_domain_all rows = pass_all to_domain rows

  abbrev to_domain? : Option AccountRow → M (Option Account)
  to_domain? none = pure none
  to_domain? (some row) = do a ← uncaught (to_domain row); pure (some a)

  -- `PostgresAccountRepo`
  abbrev pub postgres_account_repo : AccountRepo
  postgres_account_repo = record {
    create = λ a created_by.
        execute (on_duplicate a.code a.name)
          (insert_account (account_row a) (audit_row AuditAction.create a.code created_by));
    update = λ a created_by. do
      updated ←
          execute (on_duplicate a.code a.name)
            (update_account (account_row a) (audit_row AuditAction.update a.code created_by))
      or_unknown_account a.code updated;
    exists_by_code = λ code. do
      row ← (do rows ← gets (λ w. select (has_code code) w.accounts); scalar_one_or_none rows)
      pure (is_some row);
    exists_by_name = λ name. do
      rows ← gets (λ w. select (has_key (account_lookup_key name)) w.accounts)
      row ← scalar_one_or_none rows
      pure (is_some row);
    get_by_code = λ code. do
      rows ← gets (λ w. select (has_code code) w.accounts)
      row ← scalar_one_or_none rows
      to_domain? row;
    get_by_name = λ name. do
      rows ← gets (λ w. select (has_key (account_lookup_key name)) w.accounts)
      row ← scalar_one_or_none rows
      to_domain? row;
    list_all = do
      rows ← gets (λ w. w.accounts)
      uncaught (to_domain_all rows);
    delete_by_code = λ code created_by. do
      deleted ←
          execute (λ _. unknown)
            (delete_account code (audit_row AuditAction.delete code created_by))
      or_unknown_account code (if deleted then some tt else none);
  }
