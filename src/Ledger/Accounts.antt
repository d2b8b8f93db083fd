-- ===== src/Ledger/Accounts.antt =====
-- AccountService.create_account over PostgresAccountRepo, from the call to its end.
use trutina.Base.{◌≡◌, refl, Bool, true, Option, [], ◌∷◌, ◌++◌, inl, inr, Bool-cases, Text, any}
use trutina.Platform.{Platform}
use trutina.Rule.{account_lookup_key, is_non_blank_actor}
use trutina.Core.Account.{AccountCategory, Account, account, AccountViewModel, CreateAccountInput}
use trutina.Core.Account.Valid.{account-pass}
use trutina.Core.Account.Service.{create_account, to_view_model}
use trutina.Schema.{Check, pass, fail}
use trutina.Store.{
  AuditAction, ◌>>=◌, ◌>>◌, pure, translated, write_log, World, Result, ok, raise, M,
  account_created,
}
use trutina.Storage.AccountRepo.{has_code, has_key, account_row, audit_row, postgres_account_repo}
use trutina.Storage.AccountRepo.Table.{
  IsWritten, IsChart, insert_account-IsChart, insert_account-cases,
}
use trutina.Storage.AccountRepo.Reads.{exists_by_code_lem, exists_by_name_lem}

module _ ⦃u : Platform⦄ where
  pub account_row-IsWritten :
      (code name : Text) (category : AccountCategory) (a : Account)
      → account code name category ≡ pass a
      → IsWritten (account_row a)
  unfolding account_row
  account_row-IsWritten code name category a h =
      let (_, format, _, cleaned, fits, _, _) = account-pass code name category a h in
      record { code = format; name = cleaned; fits = fits; key = refl }

  -- The state after an account was created.
  abbrev pub with_account : Account → Text → World → World
  with_account a actor w = record w {
    accounts = w.accounts ++ account_row a ∷ [];
    audit_events = w.audit_events ++ audit_row AuditAction.create a.code actor ∷ [];
    log = w.log ++ account_created a.code a.category ∷ [];
  }

  module _ (check : Option (Text → M Bool)) where
    -- What `create_account` did, by how it ended.
    abbrev pub Creates :
        CreateAccountInput → Text → World → Result AccountViewModel × World → Type 0
    Creates dto actor w (ok v, w') =
        (a : Account) × (account dto.code dto.name dto.category ≡ pass a)
        × (is_non_blank_actor actor ≡ true)
        × (v ≡ to_view_model a)
        × (w' ≡ with_account a actor w)
        × IsChart w'.accounts
    Creates dto actor w (raise e, w') = w' ≡ w

    store_account :
        (dto : CreateAccountInput) (actor : Text) (w : World) (a : Account)
        → IsChart w.accounts
        → is_non_blank_actor actor ≡ true
        → account dto.code dto.name dto.category ≡ pass a
        → Creates dto actor w (
            (postgres_account_repo.create a actor
                >> (write_log (account_created a.code a.category) >> pure (to_view_model a)))
              w)
    store_account dto actor w a chart named built =
        let event = audit_row AuditAction.create a.code actor in
        let written = account_row-IsWritten dto.code dto.name dto.category a built in
        let kept = insert_account-IsChart (account_row a) event w written chart in
        elim (insert_account-cases (account_row a) event w) [
          | inl (c, stopped) ↦ rw stopped refl
          | inr stored ↦ rw stored (a, built, named, refl, refl, rw stored at kept)
        ]

    after_name :
        (dto : CreateAccountInput) (actor : Text) (w : World)
        → IsChart w.accounts
        → is_non_blank_actor actor ≡ true
        → Creates dto actor w (
            (translated (account dto.code dto.name dto.category) >>= λ a.
            postgres_account_repo.create a actor
            >> (write_log (account_created a.code a.category) >> pure (to_view_model a)))
              w)
    after_name dto actor w chart named = go (account dto.code dto.name dto.category) refl
      where
        go :
            (c : Check Account)
            → account dto.code dto.name dto.category ≡ c
            → Creates dto actor w (
                (translated c >>= λ a.
                postgres_account_repo.create a actor
                >> (write_log (account_created a.code a.category) >> pure (to_view_model a)))
                  w)
        go (pass a) built = store_account dto actor w a chart named built
        go (fail e) built = refl

    -- On a chart, create_account is atomic. If it returns, the actor is not blank, the fields make
    -- an account, exactly its row, its audit row and one log line were added, the view is that of
    -- the account, and the table is still a chart; if it raises, the state is unchanged.
    pub create_account_lem :
        (dto : CreateAccountInput) (actor : Text) (w : World)
        → IsChart w.accounts
        → Creates dto actor w (create_account postgres_account_repo check dto actor w)
    unfolding create_account
    create_account_lem dto actor w chart = elim (Bool-cases (is_non_blank_actor actor)) [
      | inr blank ↦ rw blank refl
      | inl named ↦ elim (Bool-cases (any (has_code dto.code) w.accounts)) [
        | inl taken ↦ rw (named, exists_by_code_lem w chart dto.code, taken) refl
        | inr new_code ↦
            rw
              (
                named,
                exists_by_code_lem w chart dto.code,
                new_code,
                exists_by_name_lem w chart dto.name,
              )
              (elim (Bool-cases (any (has_key (account_lookup_key dto.name)) w.accounts)) [
                | inl taken ↦ rw taken refl
                | inr new_key ↦ rw new_key (after_name dto actor w chart named)
              ])
      ]
    ]
