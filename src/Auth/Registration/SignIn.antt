-- ===== src/Auth/Registration/SignIn.antt =====
-- A user who has registered can log in.
use trutina.Base.{
  ◌≤◌, ◌≡◌, refl, sym, ap, ◌∙◌, Bool, true, false, Option, none, some, [], ◌∷◌, ◌++◌, arith, Text,
  any, find, find-none, find-append-none, same_refl, subst, ltb, length, to_list, if◌then◌else◌,
}
use mathlib.Core.List.{cons≢nil}
use trutina.Platform.{Platform}
use trutina.Errors.{FieldViolation}
use trutina.Store.{ok}
use trutina.Auth.Email.{max_email_length, is_empty, normalize_email, is_well_formed_email}
use trutina.Auth.Password.{
  max_password_length, min_password_length, normalize_password, check_password,
}
use trutina.Auth.State.{Runtime, AuthState}
use trutina.Auth.Users.{has_email, postgres_user_repo}
use trutina.Auth.Users.Table.{IsUsers}
use trutina.Auth.Registration.{RegisterInput, RegisteredUser, violations, register}
use trutina.Auth.Registration.Outcome.{Registers, registered_row, register_lem}
use trutina.Auth.Login.{refuses_input, authenticate}
use trutina.Auth.Login.Outcome.{authenticate-Accepts, row_of}

both_empty :
    (b : Bool) (v : FieldViolation) (o : Option FieldViolation)
    → ((if b then [] else v ∷ []) ++ to_list o) ≡ []
    → (b ≡ true) × (o ≡ none)
both_empty true v none h = (refl, refl)
both_empty true v (some o) h = absurd (cons≢nil h)
both_empty false v o h = absurd (cons≢nil h)

module _ ⦃u : Platform⦄ ⦃r : Runtime⦄ where
  well_formed-length :
      (email : Text)
      → is_well_formed_email r.is_other email ≡ true
      → ltb max_email_length (length email) ≡ false
  unfolding is_well_formed_email
  well_formed-length email h = ground arith

  -- A password without a violation is stored as it is normalized, and has a length in range.
  pub check_password-none :
      (raw : Text)
      → (check_password raw).1 ≡ none
      → ((check_password raw).0 ≡ normalize_password raw)
        × (is_empty (normalize_password raw) ≡ false)
        × (min_password_length ≤ length (normalize_password raw))
        × (length (normalize_password raw) ≤ max_password_length)
  unfolding check_password
  check_password-none raw h = ground arith

  -- Without violations the address is well formed, and the password has none.
  pub violations-none :
      (input : RegisterInput)
      → violations input ≡ []
      → (is_well_formed_email r.is_other (normalize_email input.email) ≡ true)
        × ((check_password input.password).1 ≡ none)
  unfolding violations
  violations-none input h =
      both_empty (is_well_formed_email r.is_other (normalize_email input.email)) _
        (check_password input.password).1 h

  -- A login with another spelling of the address and the password of a registration is not refused.
  refuses_input-registered :
      (input : RegisterInput) (email raw : Text)
      → violations input ≡ []
      → normalize_email email ≡ normalize_email input.email
      → normalize_password raw ≡ normalize_password input.password
      → length raw ≤ max_password_length
      → refuses_input email raw ≡ false
  unfolding refuses_input
  refuses_input-registered input email raw fine same_email same_password fits =
      let (formed, checked) = violations-none input fine in
      let (_, filled, _, short) = check_password-none input.password checked in
      let no_longer = well_formed-length (normalize_email input.email) formed in
      rw (same_email, same_password, filled, no_longer) (ground arith)

  -- A row that is added under a new address is the one that is found by it.
  stored :
      (input : RegisterInput) (s : AuthState)
      → any (has_email (normalize_email input.email)) s.users ≡ false
      → find (has_email (normalize_email input.email)) (s.users ++ registered_row input s ∷ [])
        ≡ some (registered_row input s)
  stored input s new =
      find-append-none (has_email (normalize_email input.email)) s.users
        (registered_row input s ∷ [])
        (find-none (has_email (normalize_email input.email)) s.users new)
      ∙ (rw (same_refl (normalize_email input.email)) refl)

  -- On a table of users whose ids and normalized addresses are unique, a user whose registration
  -- returned is logged in, with the id that the registration returned, by any spelling of the
  -- address and of the password that normalizes to the same and is at most 128 characters long.
  pub register-authenticate :
      (dummy_hash email raw : Text) (client_ip : Option Text) (input : RegisterInput)
      (v : RegisteredUser) (s s' : AuthState)
      → IsUsers s.users
      → register postgres_user_repo input s ≡ (ok v, s')
      → normalize_email email ≡ normalize_email input.email
      → normalize_password raw ≡ normalize_password input.password
      → length raw ≤ max_password_length
      → (authenticate postgres_user_repo dummy_hash email raw client_ip s').0
        ≡ ok (record { subject_id = v.id })
  register-authenticate dummy_hash email raw client_ip input v s s' users done same_email
        same_password fits =
      let (fine, new, view, after, users') =
        subst (Registers input s) done (register_lem input s users) in
      let (_, checked) = violations-none input fine in
      let (kept, _, _, _) = check_password-none input.password checked in
      let row = registered_row input s in
      let found : row_of dummy_hash email s' ≡ some row =
        ap (row_of dummy_hash email) after
        ∙ ap (λ k. find (has_email k) (s.users ++ row ∷ [])) same_email
        ∙ stored input s new in
      let matches : r.verify (normalize_password raw) row.password_hash ≡ true =
        subst (λ p. r.verify p row.password_hash ≡ true) (kept ∙ sym same_password)
          (r.verify-hash s.draws (check_password input.password).0) in
      ap (λ x. x.0)
        (authenticate-Accepts dummy_hash email raw s' users' client_ip row (
          refuses_input-registered input email raw fine same_email same_password fits,
          found,
          matches,
          refl,
        ))
      ∙ ap (λ w. ok (record { subject_id = w.id })) (sym view)
