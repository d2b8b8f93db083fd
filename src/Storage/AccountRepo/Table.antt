-- ===== src/Storage/AccountRepo/Table.antt =====
-- The invariant of the table `accounts`, and the transactions on it.
use trutina.Base.{
  ◌≤◌, ◌⊎◌, ◌≡◌, refl, ◌∙◌, Bool, true, false, not, ◌&&◌, some, List, [], ◌∷◌, ◌++◌, inl, inr,
  Bool-cases, arith, Text, same, select, any, length, All, All-append, Unique, Unique-append,
  Unique-select, same→eq, same_sym,
}
use trutina.Platform.{Platform}
use trutina.Rule.{account_lookup_key, clean_account_name}
use trutina.Core.Account.{matches_code}
use trutina.Store.{
  Constraint, uq_accounts_code, uq_accounts_name_key, AccountRow, AuditRow, World, Outcome,
  committed, violated, refused,
}
use trutina.Storage.AccountRepo.{
  has_code, has_key, insert_account, update_account, delete_account, replace_account,
}

abbrev pub code_of : AccountRow → Text
code_of r = r.code

abbrev pub key_of : AccountRow → Text
key_of r = r.name_key

module _ ⦃u : Platform⦄ where
  -- What a row owes to the validation of the account that was written.
  pub record IsWritten (r : AccountRow) : Type 0 where
    pub code : matches_code r.code ≡ true
    pub name : clean_account_name r.name ≡ some r.name
    pub fits : length r.name ≤ 150
    pub key : r.name_key ≡ account_lookup_key r.name

  pub record IsChart (rows : List AccountRow) : Type 0 where
    pub codes : Unique code_of rows
    pub keys : Unique key_of rows
    pub written : All IsWritten rows

-- What a transaction leaves in the table, if it commits.
abbrev pub Keeps : {A : Type 0} → (List AccountRow → Type 0) → Outcome A → Type 0
Keeps P (committed a w) = P w.accounts
Keeps P (violated c) = Unit
Keeps P refused = Unit

module _ (row : AccountRow) where
  any-replace_account :
      (p : AccountRow → Bool) (rows : List AccountRow)
      → any p rows ≡ false
      → p row ≡ false
      → any p (replace_account row rows) ≡ false
  unfolding replace_account
  any-replace_account p [] h k = refl
  any-replace_account p (r ∷ rows) h k = ground (arith, any-replace_account p rows)

  replace_account-codes :
      (k : Text) (rows : List AccountRow)
      → any (has_code k) (replace_account row rows) ≡ any (has_code k) rows
  unfolding replace_account
  replace_account-codes k [] = refl
  replace_account-codes k (r ∷ rows) = elim (Bool-cases (has_code row.code r)) [
    | inl here ↦ rw (here, same→eq r.code row.code here, replace_account-codes k rows)
    | inr other ↦ rw (other, replace_account-codes k rows)
  ]

  replace_account-Unique_codes :
      (rows : List AccountRow) → Unique code_of rows → Unique code_of (replace_account row rows)
  unfolding replace_account
  replace_account-Unique_codes [] d = tt
  replace_account-Unique_codes (r ∷ rows) d = elim (Bool-cases (has_code row.code r)) [
    | inl here ↦ rw here (
      replace_account-codes row.code rows ∙ (rw (same→eq r.code row.code here) at d.0),
      replace_account-Unique_codes rows d.1,
    )
    | inr other ↦
        rw other (replace_account-codes r.code rows ∙ d.0, replace_account-Unique_codes rows d.1)
  ]

  replace_account_absent :
      (rows : List AccountRow)
      → any (has_code row.code) rows ≡ false
      → replace_account row rows ≡ rows
  unfolding replace_account
  replace_account_absent [] h = refl
  replace_account_absent (r ∷ rows) h = ground (arith, replace_account_absent rows)

  -- A key that only the row of the same code may have.
  abbrev Free : List AccountRow → Type 0
  Free rows = any (λ r. not (has_code row.code r) && has_key row.name_key r) rows ≡ false

  Free-absent :
      (rows : List AccountRow)
      → Free rows
      → any (has_code row.code) rows ≡ false
      → any (has_key row.name_key) rows ≡ false
  Free-absent [] h k = refl
  Free-absent (r ∷ rows) h k = ground (arith, Free-absent rows)

  Free-inv :
      (r : AccountRow) (rows : List AccountRow)
      → has_code row.code r ≡ false
      → Free (r ∷ rows)
      → (has_key row.name_key r ≡ false) × Free rows
  Free-inv r rows other h = ground arith

  replace_account-Unique_keys :
      (rows : List AccountRow)
      → Unique code_of rows
      → Unique key_of rows
      → Free rows
      → Unique key_of (replace_account row rows)
  unfolding replace_account
  replace_account-Unique_keys [] c d h = tt
  replace_account-Unique_keys (r ∷ rows) c d h = elim (Bool-cases (has_code row.code r)) [
    | inl here ↦
        let absent = (rw (same→eq r.code row.code here) at c.0) in
        let free = (rw here at h) in
        rw (here, replace_account_absent rows absent) (Free-absent rows free absent, d.1)
    | inr other ↦
        let (differs, free) = Free-inv r rows other h in
        rw other (
          any-replace_account (λ y. same (key_of y) (key_of r)) rows d.0
              (same_sym row.name_key r.name_key ∙ differs),
          replace_account-Unique_keys rows c.1 d.1 free,
        )
  ]

  replace_account-All {ℓ} :
      (P : AccountRow → Type ℓ) (rows : List AccountRow)
      → P row
      → All P rows
      → All P (replace_account row rows)
  unfolding replace_account
  replace_account-All P [] p h = tt
  replace_account-All P (r ∷ rows) p h = elim (Bool-cases (has_code row.code r)) [
    | inl here ↦ rw here (p, replace_account-All P rows p h.1)
    | inr other ↦ rw other (h.0, replace_account-All P rows p h.1)
  ]

All-select {ℓ} :
    {A : Type 0} (P : A → Type ℓ) (q : A → Bool) (xs : List A) → All P xs → All P (select q xs)
All-select P q [] h = tt
All-select P q (x ∷ xs) h = elim (Bool-cases (q x)) [
  | inl kept ↦ rw kept (h.0, All-select P q xs h.1)
  | inr dropped ↦ rw dropped (All-select P q xs h.1)
]

module _ ⦃u : Platform⦄ where
  IsChart-insert :
      (row : AccountRow) (rows : List AccountRow)
      → IsWritten row
      → IsChart rows
      → any (has_code row.code) rows ≡ false
      → any (has_key row.name_key) rows ≡ false
      → IsChart (rows ++ row ∷ [])
  IsChart-insert row rows w c no_code no_key = record {
    codes = Unique-append code_of rows row c.codes no_code;
    keys = Unique-append key_of rows row c.keys no_key;
    written = All-append IsWritten rows (row ∷ []) c.written (w, tt);
  }

  IsChart-replace :
      (row : AccountRow) (rows : List AccountRow)
      → IsWritten row
      → IsChart rows
      → Free row rows
      → IsChart (replace_account row rows)
  IsChart-replace row rows w c free = record {
    codes = replace_account-Unique_codes row rows c.codes;
    keys = replace_account-Unique_keys row rows c.codes c.keys free;
    written = replace_account-All row IsWritten rows w c.written;
  }

  IsChart-remove :
      (q : AccountRow → Bool) (rows : List AccountRow) → IsChart rows → IsChart (select q rows)
  IsChart-remove q rows c = record {
    codes = Unique-select code_of q rows c.codes;
    keys = Unique-select key_of q rows c.keys;
    written = All-select IsWritten q rows c.written;
  }

  -- Inserting a row that is written like the service writes it leaves a chart: codes and name keys
  -- are unique, and every row is written so.
  pub insert_account-IsChart :
      (row : AccountRow) (event : AuditRow) (w : World)
      → IsWritten row
      → IsChart w.accounts
      → Keeps IsChart (insert_account row event w)
  unfolding insert_account
  insert_account-IsChart row event w h c = elim (Bool-cases (any (has_code row.code) w.accounts)) [
    | inl taken ↦ rw taken tt
    | inr new_code ↦ elim (Bool-cases (any (has_key row.name_key) w.accounts)) [
      | inl taken ↦ rw (new_code, taken) tt
      | inr new_key ↦ rw (new_code, new_key) (IsChart-insert row w.accounts h c new_code new_key)
    ]
  ]

  -- Updating a row to one that is written like the service writes it leaves a chart: codes and name
  -- keys are unique, and every row is written so.
  pub update_account-IsChart :
      (row : AccountRow) (event : AuditRow) (w : World)
      → IsWritten row
      → IsChart w.accounts
      → Keeps IsChart (update_account row event w)
  unfolding update_account
  update_account-IsChart row event w h c = elim (Bool-cases (any (has_code row.code) w.accounts)) [
    | inr absent ↦ rw absent c
    | inl present ↦
        elim (Bool-cases
          (any (λ r. not (has_code row.code r) && has_key row.name_key r) w.accounts)) [
            | inl taken ↦ rw (present, taken) tt
            | inr free ↦ rw (present, free) (IsChart-replace row w.accounts h c free)
          ]
  ]

  -- Deleting the row of a code leaves a chart: codes and name keys are unique, and every row is
  -- written like the service writes it.
  pub delete_account-IsChart :
      (code : Text) (event : AuditRow) (w : World)
      → IsChart w.accounts
      → Keeps IsChart (delete_account code event w)
  unfolding delete_account
  delete_account-IsChart code event w c = elim (Bool-cases (any (has_code code) w.accounts)) [
    | inr absent ↦ rw absent c
    | inl present ↦ rw present (IsChart-remove _ w.accounts c)
  ]

-- An insert commits the rows as they are, or a constraint stops it.
pub insert_account-cases :
    (row : AccountRow) (event : AuditRow) (w : World)
    → ((c : Constraint) × (insert_account row event w ≡ violated c))
      ⊎ (insert_account row event w
          ≡ committed tt (record w {
            accounts = w.accounts ++ row ∷ [];
            audit_events = w.audit_events ++ event ∷ [];
          }))
unfolding insert_account
insert_account-cases row event w = elim (Bool-cases (any (has_code row.code) w.accounts)) [
  | inl taken ↦ inl (uq_accounts_code, rw taken)
  | inr new_code ↦ elim (Bool-cases (any (has_key row.name_key) w.accounts)) [
    | inl taken ↦ inl (uq_accounts_name_key, rw (new_code, taken))
    | inr new_key ↦ inr (rw (new_code, new_key))
  ]
]
