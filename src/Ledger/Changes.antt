-- ===== src/Ledger/Changes.antt =====
-- AccountService.update_account and delete_account over PostgresAccountRepo, from the call to its
-- end. The check for postings is any call that only reads.
use trutina.Base.{
  ◌≡◌, refl, ◌⊎◌, inl, inr, Bool, true, false, not, ◌&&◌, Bool-cases, Option, none, some, [], ◌∷◌,
  ◌++◌, Text, text, select, any, same,
}
use trutina.Platform.{Platform}
use trutina.Rule.{is_non_blank_actor, account_lookup_key}
use trutina.Core.Account.{Account, account, AccountViewModel, UpdateAccountInput}
use trutina.Core.Account.Service.{
  to_view_model, or_else, or_unknown, require_actor, name_conflicts, check_postings, update_account,
  delete_account,
}
use trutina.Store.{
  World, Result, ok, raise, M, Done, AuditAction, committed, violated, account_updated,
  account_deleted, ◌>>=◌, ◌>>◌, throw_if, write_log, uq_accounts_name_key, pure, translated,
}
use trutina.Errors.{conflict, duplicate_account_name, string}
use trutina.Schema.{pass}
use trutina.Storage.AccountRepo.{
  audit_row, has_code, has_key, account_row, replace_account, postgres_account_repo,
  delete_account as delete_row, update_account as update_row,
}
use trutina.Storage.AccountRepo.Table.{IsChart, delete_account-IsChart, update_account-IsChart}
use trutina.Storage.AccountRepo.Reads.{get_by_code-same, exists_by_name-same}
use trutina.Ledger.Reading.{
  SameState, resume-SameState, throw_if-SameState, throw_if-ok, or_unknown-SameState, or_unknown-ok,
  require_actor-SameState, require_actor-ok, translated-SameState, translated-ok,
}
use trutina.Ledger.Accounts.{account_row-IsWritten}

module _ ⦃u : Platform⦄ (check : Option (Text → M Bool)) where
  -- The state after the account of a code was deleted.
  abbrev pub without_account : Text → Text → World → World
  without_account code actor w = record w {
    accounts = select (λ r. not (has_code code r)) w.accounts;
    audit_events = w.audit_events ++ audit_row AuditAction.delete code actor ∷ [];
    log = w.log ++ account_deleted code ∷ [];
  }

  -- What `delete_account` did, by how it ended.
  abbrev pub Deletes : Text → Text → World → Result Done × World → Type 0
  Deletes code actor w (ok d, w') =
      (is_non_blank_actor actor ≡ true)
      × ((a : Account) × (postgres_account_repo.get_by_code code w ≡ (ok (some a), w))
          × (check_postings postgres_account_repo check check a.name w ≡ (ok false, w)))
      × (w' ≡ without_account code actor w)
      × IsChart w'.accounts
  Deletes code actor w (raise e, w') = w' ≡ w

  delete_row-cases :
      (code actor : Text) (w : World)
      → let event = audit_row AuditAction.delete code actor in
        (delete_row code event w ≡ committed false w)
        ⊎ (delete_row code event w
            ≡ committed true (record w {
              accounts = select (λ r. not (has_code code r)) w.accounts;
              audit_events = w.audit_events ++ event ∷ [];
            }))
  unfolding delete_row
  delete_row-cases code actor w = elim (Bool-cases (any (has_code code) w.accounts)) [
    | inl present ↦ inr (rw present refl)
    | inr absent ↦ inl (rw absent refl)
  ]

  delete_stage :
      (code actor : Text) (w : World)
      → IsChart w.accounts
      → is_non_blank_actor actor ≡ true
      → ((a : Account) × (postgres_account_repo.get_by_code code w ≡ (ok (some a), w))
          × (check_postings postgres_account_repo check check a.name w ≡ (ok false, w)))
      → Deletes code actor w
          ((postgres_account_repo.delete_by_code code actor >> write_log (account_deleted code)) w)
  delete_stage code actor w chart named found =
      let kept = delete_account-IsChart code (audit_row AuditAction.delete code actor) w chart in
      elim (delete_row-cases code actor w) [
        | inl absent ↦ rw absent refl
        | inr stored ↦ rw stored (named, found, refl, rw stored at kept)
      ]

  -- On a chart, and for a check for postings that only reads, delete_account is atomic. If it
  -- returns, the actor is not blank, the account of the code was read and has no postings by the
  -- check, exactly its row was removed and its audit row and one log line added, and the table is
  -- still a chart; if it raises, the state is unchanged.
  pub delete_account_lem :
      (code actor : Text) (w : World)
      → IsChart w.accounts
      → ((name : Text) → SameState w (check_postings postgres_account_repo check check name w))
      → Deletes code actor w (delete_account postgres_account_repo check code actor w)
  unfolding delete_account
  delete_account_lem code actor w chart reads =
      resume-SameState (Deletes code actor w) w (require_actor actor w) _
        (require_actor-SameState actor w) (λ e. refl)
        (λ d named.
          resume-SameState (Deletes code actor w) w (postgres_account_repo.get_by_code code w) _
            (get_by_code-same w chart code) (λ e. refl)
            (λ found got.
              resume-SameState (Deletes code actor w) w (or_unknown code found w) _
                (or_unknown-SameState code found w) (λ e. refl)
                (λ a known.
                  resume-SameState (Deletes code actor w) w
                    (check_postings postgres_account_repo check check a.name w) _ (reads a.name)
                    (λ e. refl)
                    (λ in_use checked.
                      resume-SameState (Deletes code actor w) w (throw_if in_use _ w) _
                        (throw_if-SameState in_use _ w) (λ e. refl)
                        (λ d' free.
                          delete_stage code actor w chart (require_actor-ok actor w named) (
                            a,
                            rw (or_unknown-ok code found w a known) at got,
                            rw (throw_if-ok in_use _ w free) at checked,
                          ))))))

  -- The state after the row of an account was replaced.
  abbrev pub with_changed : Account → Text → World → World
  with_changed b actor w = record w {
    accounts = replace_account (account_row b) w.accounts;
    audit_events = w.audit_events ++ audit_row AuditAction.update b.code actor ∷ [];
    log = w.log ++ account_updated b.code ∷ [];
  }

  -- What `update_account` did, by how it ended: a field that is not given keeps its value.
  abbrev pub Updates : UpdateAccountInput → Text → World → Result AccountViewModel × World → Type 0
  Updates dto actor w (ok view, w') =
      (is_non_blank_actor actor ≡ true)
      × ((a b : Account) × (postgres_account_repo.get_by_code dto.code w ≡ (ok (some a), w))
          × (account a.code (or_else dto.name a.name) (or_else dto.category a.category) ≡ pass b)
          × (view ≡ to_view_model b)
          × (w' ≡ with_changed b actor w))
      × IsChart w'.accounts
  Updates dto actor w (raise e, w') = w' ≡ w

  update_row-cases :
      (b : Account) (actor : Text) (w : World)
      → let event = audit_row AuditAction.update b.code actor in
        (update_row (account_row b) event w ≡ committed none w)
        ⊎ (update_row (account_row b) event w ≡ violated uq_accounts_name_key)
        ⊎ (update_row (account_row b) event w
            ≡ committed (some tt) (record w {
              accounts = replace_account (account_row b) w.accounts;
              audit_events = w.audit_events ++ event ∷ [];
            }))
  unfolding update_row account_row
  update_row-cases b actor w = elim (Bool-cases (any (has_code b.code) w.accounts)) [
    | inr absent ↦ inl (rw absent refl)
    | inl present ↦
        elim (Bool-cases (
          any (λ r. not (has_code b.code r) && has_key (account_lookup_key b.name) r) w.accounts)) [
            | inl taken ↦ inr (inl (rw (present, taken) refl))
            | inr free ↦ inr (inr (rw (present, free) refl))
          ]
  ]

  name_conflicts-SameState :
      (new_name old_name : Text) (w : World)
      → IsChart w.accounts
      → SameState w (name_conflicts postgres_account_repo check new_name old_name w)
  unfolding name_conflicts
  name_conflicts-SameState new_name old_name w chart = elim (Bool-cases (same new_name old_name)) [
    | inl kept ↦ rw kept refl
    | inr changed ↦ rw changed (exists_by_name-same w chart new_name)
  ]

  module _ (dto : UpdateAccountInput) (actor : Text) (w : World) (chart : IsChart w.accounts) where
    update_stage :
        (a b : Account)
        → is_non_blank_actor actor ≡ true
        → postgres_account_repo.get_by_code dto.code w ≡ (ok (some a), w)
        → account a.code (or_else dto.name a.name) (or_else dto.category a.category) ≡ pass b
        → Updates dto actor w (
            (postgres_account_repo.update b actor
                >> (write_log (account_updated b.code) >> pure (to_view_model b)))
              w)
    update_stage a b named got built =
        let written =
          account_row-IsWritten a.code (or_else dto.name a.name) (or_else dto.category a.category) b
            built in
        let kept =
          update_account-IsChart (account_row b) (audit_row AuditAction.update b.code actor) w
            written chart in
        elim (update_row-cases b actor w) [
          | inl absent ↦ rw absent refl
          | inr (inl taken) ↦ rw taken refl
          | inr (inr stored) ↦ rw stored (named, (a, b, got, built, refl, refl), rw stored at kept)
        ]

    -- On a chart, update_account is atomic. If it returns, the actor is not blank, the account of
    -- the code was read, its code and the fields, those that are not given kept, make an account,
    -- exactly its row was replaced and its audit row and one log line added, the view is that of
    -- the account, and the table is still a chart; if it raises, the state is unchanged.
    pub update_account_lem :
        Updates dto actor w (update_account postgres_account_repo check dto actor w)
    unfolding update_account
    update_account_lem =
        resume-SameState (Updates dto actor w) w (require_actor actor w) _
          (require_actor-SameState actor w) (λ e. refl)
          (λ d named.
            resume-SameState (Updates dto actor w) w (postgres_account_repo.get_by_code dto.code w)
              _ (get_by_code-same w chart dto.code) (λ e. refl)
              (λ found got.
                resume-SameState (Updates dto actor w) w (or_unknown dto.code found w) _
                  (or_unknown-SameState dto.code found w) (λ e. refl)
                  (λ a known.
                    after_read named a (rw (or_unknown-ok dto.code found w a known) at got))))
      where
        after_read :
            require_actor actor w ≡ (ok tt, w)
            → (a : Account) → postgres_account_repo.get_by_code dto.code w ≡ (ok (some a), w)
            → Updates dto actor w (
                (name_conflicts postgres_account_repo check (or_else dto.name a.name) a.name
                    >>= λ taken.
                        throw_if taken (
                          conflict duplicate_account_name
                            (text "account")
                            (text "name")
                            (string (or_else dto.name a.name)))
                        >> (translated (
                              account a.code
                                (or_else dto.name a.name)
                                (or_else dto.category a.category))
                            >>= λ b.
                                postgres_account_repo.update b actor
                                >> (write_log (account_updated b.code) >> pure (to_view_model b))))
                  w)
        after_read named a got =
            resume-SameState (Updates dto actor w) w
              (name_conflicts postgres_account_repo check (or_else dto.name a.name) a.name w) _
              (name_conflicts-SameState (or_else dto.name a.name) a.name w chart) (λ e. refl)
              (λ taken answered.
                resume-SameState (Updates dto actor w) w (throw_if taken _ w) _
                  (throw_if-SameState taken _ w) (λ e. refl)
                  (λ d free.
                    resume-SameState (Updates dto actor w) w
                      (translated
                        (account a.code (or_else dto.name a.name) (or_else dto.category a.category))
                        w)
                      _ (translated-SameState _ w) (λ e. refl)
                      (λ b built.
                        update_stage a b (require_actor-ok actor w named) got
                          (translated-ok _ w b built))))
