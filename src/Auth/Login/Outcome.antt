-- ===== src/Auth/Login/Outcome.antt =====
-- PasswordAuthenticator over PostgresUserRepo, from the call to its end.
use trutina.Base.{
  ◌≡◌, refl, ap, ◌∙◌, true, false, not, ◌||◌, Option, none, some, [], ◌∷◌, ◌++◌, arith, Text, inl,
  inr, Bool-cases, find, if◌then◌else◌, if_elim,
}
use trutina.Platform.{Platform}
use trutina.Store.{Result, ok, raise}
use trutina.Auth.Email.{normalize_email}
use trutina.Auth.Email.Normal.{normalize_email-normalize_email}
use trutina.Auth.Password.{normalize_password}
use trutina.Auth.State.{Runtime, UserRow, AuthState, verified, hashed, resume, pure}
use trutina.Auth.Users.{
  Identity, has_id, has_email, update_rows, to_domain?, to_domain, user, postgres_user_repo,
}
use trutina.Auth.Users.Table.{IsUsers, IsUsers-update_rows, KeepsKeys}
use trutina.Auth.Users.Reads.{find_other, get_by_email_lem, update_one_lem}
use trutina.Auth.Login.{refuses_input, invalid_credentials, check_user, authenticate}
use trutina.Base.{same_refl, suc}

-- The hash that a password is checked against.
abbrev pub stored_hash : Text → Option UserRow → Text
stored_hash dummy_hash none = dummy_hash
stored_hash dummy_hash (some row) = row.password_hash

abbrev pub with_verified : Text → Text → AuthState → AuthState
with_verified candidate password_hash s = record s {
  hasher_calls = s.hasher_calls ++ verified candidate password_hash ∷ [];
}

module _ ⦃u : Platform⦄ ⦃r : Runtime⦄ (dummy_hash : Text) where
  abbrev pub row_of : Text → AuthState → Option UserRow
  row_of email s = find (has_email (normalize_email email)) s.users

  -- The state after a login: a hash with outdated parameters was replaced.
  abbrev pub logged_in : Text → UserRow → AuthState → AuthState
  logged_in candidate row s =
      let s' = with_verified candidate row.password_hash s in
      if r.needs_rehash row.password_hash
      then record s' {
        users =
            update_rows row.id (λ a. record a { password_hash = r.hash s.draws candidate }) s.users;
        hasher_calls = s'.hasher_calls ++ hashed candidate ∷ [];
        draws = suc s.draws;
      }
      else s'

  abbrev pub Accepts : Text → Text → UserRow → AuthState → Type 0
  Accepts email raw row s =
      (refuses_input email raw ≡ false)
      × (row_of email s ≡ some row)
      × (r.verify (normalize_password raw) row.password_hash ≡ true)
      × (row.is_active ≡ true)

  -- What a login came to, by how it ended.
  abbrev pub Authenticates : Text → Text → AuthState → Result Identity × AuthState → Type 0
  Authenticates email raw s (ok identity, s') =
      (row : UserRow) × Accepts email raw row s
      × (identity.subject_id ≡ row.id)
      × (s' ≡ logged_in (normalize_password raw) row s)
      × IsUsers s'.users
  Authenticates email raw s (raise e, s') =
      (e ≡ invalid_credentials)
      × (s' ≡ (
          if refuses_input email raw
          then s
          else with_verified (normalize_password raw) (stored_hash dummy_hash (row_of email s)) s))

  found-id :
      (email : Text) (s : AuthState) (row : UserRow)
      → row_of email s ≡ some row
      → (a : UserRow) × (find (has_id row.id) s.users ≡ some a)
  found-id email s row found =
      find_other (has_email (normalize_email email)) (has_id row.id) s.users row found
        (same_refl row.id)

  module _ (email raw : Text) (s : AuthState) (users : IsUsers s.users) where
    abbrev candidate : Text
    candidate = normalize_password raw

    rehash-KeepsKeys : (h : Text) → KeepsKeys (λ a. record a { password_hash = h })
    rehash-KeepsKeys h row = (refl, refl)

    checked :
        (row : UserRow)
        → row_of email s ≡ some row
        → r.verify candidate row.password_hash ≡ true
        → row.is_active ≡ true
        → check_user postgres_user_repo dummy_hash candidate (some (to_domain row)) s
          ≡ (ok (record { subject_id = row.id }), logged_in candidate row s)
    unfolding check_user to_domain user
    checked row found matches active = elim (Bool-cases (r.needs_rehash row.password_hash)) [
      | inl outdated ↦
          rw (matches, active, outdated)
            (ap (λ x. resume x λ _. pure (record { subject_id = row.id }))
              (update_one_lem row.id (λ a. record a { password_hash = r.hash s.draws candidate })
                (record s {
                  hasher_calls =
                      s.hasher_calls
                      ++ verified candidate row.password_hash ∷ []
                      ++ hashed candidate ∷ [];
                  draws = suc s.draws;
                })
                (found-id email s row found).0 users (found-id email s row found).1))
      | inr fresh ↦ rw (matches, active, fresh) refl
    ]

    logged_in-IsUsers : (row : UserRow) → IsUsers (logged_in candidate row s).users
    logged_in-IsUsers row =
        if_elim {A = AuthState} (λ x. IsUsers x.users) (r.needs_rehash row.password_hash)
          (λ _.
            IsUsers-update_rows row.id (λ a. record a { password_hash = r.hash s.draws candidate })
              (rehash-KeepsKeys (r.hash s.draws candidate)) s.users users)
          (λ _. users)

    refused :
        (row : UserRow)
        → (not (r.verify candidate row.password_hash) || not row.is_active) ≡ true
        → check_user postgres_user_repo dummy_hash candidate (some (to_domain row)) s
          ≡ (raise invalid_credentials, with_verified candidate row.password_hash s)
    unfolding check_user to_domain user
    refused row bad = rw bad refl

    looked_up :
        (client_ip : Option Text)
        → refuses_input email raw ≡ false
        → authenticate postgres_user_repo dummy_hash email raw client_ip s
          ≡ check_user postgres_user_repo dummy_hash candidate (to_domain? (row_of email s)) s
    unfolding authenticate
    looked_up client_ip fine =
        rw
          (
            fine,
            get_by_email_lem (normalize_email email) s users,
            normalize_email-normalize_email email,
          )
          refl

    turned_away :
        (client_ip : Option Text)
        → refuses_input email raw ≡ true
        → authenticate postgres_user_repo dummy_hash email raw client_ip s
          ≡ (raise invalid_credentials, s)
    unfolding authenticate
    turned_away client_ip bad = rw bad refl

    nobody :
        check_user postgres_user_repo dummy_hash candidate none s
        ≡ (raise invalid_credentials, with_verified candidate dummy_hash s)
    unfolding check_user
    nobody = refl

    accepts :
        (row : UserRow)
        → (not (r.verify candidate row.password_hash) || not row.is_active) ≡ false
        → (r.verify candidate row.password_hash ≡ true) × (row.is_active ≡ true)
    accepts row good = (ground arith, ground arith)

    decided :
        (found : Option UserRow)
        → row_of email s ≡ found
        → refuses_input email raw ≡ false
        → Authenticates email raw s
            (check_user postgres_user_repo dummy_hash candidate (to_domain? found) s)
    decided none e fine = rw nobody (refl, rw (fine, e) refl)
    decided (some row) e fine =
        elim (Bool-cases (not (r.verify candidate row.password_hash) || not row.is_active)) [
          | inl bad ↦ rw (refused row bad) (refl, rw (fine, e) refl)
          | inr good ↦
              let (matches, active) = accepts row good in
              rw (checked row e matches active)
                (row, (fine, e, matches, active), refl, refl, logged_in-IsUsers row)
        ]

    -- On a table of users whose ids and normalized addresses are unique, a login that returns found
    -- the active user of the address and verified the password against the stored hash, and only
    -- replaced the hash if it is outdated; a login that raises reports AUTH_INVALID_CREDENTIALS,
    -- and changed nothing but that the hasher verified one hash, the stored or the dummy one,
    -- unless the input was refused.
    pub authenticate_lem :
        (client_ip : Option Text)
        → Authenticates email raw s
            (authenticate postgres_user_repo dummy_hash email raw client_ip s)
    authenticate_lem client_ip = elim (Bool-cases (refuses_input email raw)) [
      | inl bad ↦ rw (turned_away client_ip bad) (refl, rw bad refl)
      | inr fine ↦ rw (looked_up client_ip fine) (decided (row_of email s) refl fine)
    ]

    -- x
    pub authenticate-Accepts :
        (client_ip : Option Text) (row : UserRow)
        → Accepts email raw row s
        → authenticate postgres_user_repo dummy_hash email raw client_ip s
          ≡ (ok (record { subject_id = row.id }), logged_in candidate row s)
    authenticate-Accepts client_ip row (fine, found, matches, active) =
        looked_up client_ip fine
        ∙ ap (λ o. check_user postgres_user_repo dummy_hash candidate (to_domain? o) s) found
        ∙ checked row found matches active
