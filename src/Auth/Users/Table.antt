-- ===== src/Auth/Users/Table.antt =====
-- The invariant of the table `users`, and the statements on it.
use trutina.Base.{
  ◌≡◌, refl, sym, ap, ap₂, ◌∙◌, true, false, List, [], ◌∷◌, ◌++◌, Text, same, any, All, All-append,
  Unique, Unique-append, if◌then◌else◌, if_elim,
}
use trutina.Platform.{Platform}
use trutina.Store.{Result, ok, raise, Done}
use trutina.Auth.Email.{normalize_email}
use trutina.Auth.State.{UserRow, AuthState}
use trutina.Auth.Users.{has_id, has_email, insert_user, update_rows}

abbrev pub id_of : UserRow → Text
id_of row = row.id

abbrev pub email_of : UserRow → Text
email_of row = row.email

module _ ⦃u : Platform⦄ where
  abbrev pub IsNormal : UserRow → Type 0
  IsNormal row = normalize_email row.email ≡ row.email

  pub record IsUsers (rows : List UserRow) : Type 0 where
    pub ids : Unique id_of rows
    pub emails : Unique email_of rows
    pub normal : All IsNormal rows

  pub IsUsers-append :
      (rows : List UserRow) (row : UserRow)
      → IsUsers rows
      → any (has_id row.id) rows ≡ false
      → any (has_email row.email) rows ≡ false
      → IsNormal row
      → IsUsers (rows ++ row ∷ [])
  IsUsers-append rows row h new_id new_email normal = record {
    ids = Unique-append id_of rows row h.ids new_id;
    emails = Unique-append email_of rows row h.emails new_email;
    normal = All-append IsNormal rows (row ∷ []) h.normal (normal, tt);
  }

  -- A change of a row that keeps its id and its address.
  abbrev pub KeepsKeys : (UserRow → UserRow) → Type 0
  KeepsKeys f = (row : UserRow) → ((f row).id ≡ row.id) × ((f row).email ≡ row.email)

  module _ (id : Text) (f : UserRow → UserRow) (keeps : KeepsKeys f) where
    abbrev changed : UserRow → UserRow
    changed row = if has_id id row then f row else row

    changed-id : (row : UserRow) → (changed row).id ≡ row.id
    changed-id row =
        if_elim {A = UserRow} (λ x. x.id ≡ row.id) (has_id id row) (λ _. (keeps row).0) (λ _. refl)

    changed-email : (row : UserRow) → (changed row).email ≡ row.email
    changed-email row =
        if_elim {A = UserRow} (λ x. x.email ≡ row.email) (has_id id row) (λ _. (keeps row).1)
          (λ _. refl)

    any_id-update_rows :
        (k : Text) (rows : List UserRow)
        → any (has_id k) (update_rows id f rows) ≡ any (has_id k) rows
    unfolding update_rows
    any_id-update_rows k [] = refl
    any_id-update_rows k (row ∷ rows) =
        ap₂ (λ a b. if same a k then true else b) (changed-id row) (any_id-update_rows k rows)

    any_email-update_rows :
        (k : Text) (rows : List UserRow)
        → any (has_email k) (update_rows id f rows) ≡ any (has_email k) rows
    unfolding update_rows
    any_email-update_rows k [] = refl
    any_email-update_rows k (row ∷ rows) =
        ap₂ (λ a b. if same a k then true else b) (changed-email row) (any_email-update_rows k rows)

    ids-update_rows :
        (rows : List UserRow) → Unique id_of rows → Unique id_of (update_rows id f rows)
    unfolding update_rows
    ids-update_rows [] h = tt
    ids-update_rows (row ∷ rows) h = (
      ap (λ k. any (has_id k) (update_rows id f rows)) (changed-id row)
          ∙ any_id-update_rows row.id rows
          ∙ h.0,
      ids-update_rows rows h.1,
    )

    emails-update_rows :
        (rows : List UserRow) → Unique email_of rows → Unique email_of (update_rows id f rows)
    unfolding update_rows
    emails-update_rows [] h = tt
    emails-update_rows (row ∷ rows) h = (
      ap (λ k. any (has_email k) (update_rows id f rows)) (changed-email row)
          ∙ any_email-update_rows row.email rows
          ∙ h.0,
      emails-update_rows rows h.1,
    )

    IsNormal-update_rows :
        (rows : List UserRow) → All IsNormal rows → All IsNormal (update_rows id f rows)
    unfolding update_rows
    IsNormal-update_rows [] h = tt
    IsNormal-update_rows (row ∷ rows) h = (
      ap normalize_email (changed-email row) ∙ h.0 ∙ sym (changed-email row),
      IsNormal-update_rows rows h.1,
    )

    pub IsUsers-update_rows : (rows : List UserRow) → IsUsers rows → IsUsers (update_rows id f rows)
    IsUsers-update_rows rows h = record {
      ids = ids-update_rows rows h.ids;
      emails = emails-update_rows rows h.emails;
      normal = IsNormal-update_rows rows h.normal;
    }

  -- What an insertion of a row comes to.
  abbrev pub Inserts : UserRow → AuthState → Result Done × AuthState → Type 0
  Inserts row s (ok _, s') =
      (s' ≡ record s { users = s.users ++ row ∷ [] })
      × (any (has_id row.id) s.users ≡ false)
      × (any (has_email row.email) s.users ≡ false)
  Inserts row s (raise e, s') = s' ≡ s

  pub insert_user-Inserts : (row : UserRow) (s : AuthState) → Inserts row s (insert_user row s)
  unfolding insert_user
  insert_user-Inserts row s =
      if_elim (Inserts row s) (any (has_id row.id) s.users) (λ _. refl)
        λ fresh.
          if_elim (Inserts row s) (any (has_email row.email) s.users) (λ _. refl)
            λ new. (refl, fresh, new)
