-- ===== src/Auth/Login/Framed.antt =====
-- PasswordAuthenticator over PostgresUserRepo does not touch the login attempts.
use trutina.Base.{refl, arith, not, ◌||◌, Option, none, some, List, Text, select, map}
use trutina.Platform.{Platform}
use trutina.Store.{ok}
use trutina.Auth.State.{Runtime, UserRow, gets}
use trutina.Auth.Email.{normalize_email}
use trutina.Auth.Password.{normalize_password}
use trutina.Auth.Frame.{
  Framed, pure-Framed, throw-Framed, scalar_one_or_none-Framed, if-Framed, throw_if-Framed,
  >>=-Framed, verify_password-Framed, hash_password-Framed,
}
use trutina.Auth.Users.{
  User, has_id, has_email, update_rows, or_unknown_user, update_one, to_domain?, postgres_user_repo,
}
use trutina.Auth.Login.{refuses_input, invalid_credentials, check_user, authenticate}

or_unknown_user-Framed : (id : Text) (found : Option Text) → Framed (or_unknown_user id found)
unfolding or_unknown_user
or_unknown_user-Framed id none = throw-Framed _
or_unknown_user-Framed id (some a) = pure-Framed tt

-- A read of the table `users`.
read_users-Framed : (f : List UserRow → List UserRow) → Framed (gets (λ s. f s.users))
read_users-Framed f = record { frame = λ rows s. refl; forward = λ s. omega arith }

write_users-Framed :
    (f : List UserRow → List UserRow) → Framed (λ s. (ok tt, record s { users = f s.users }))
write_users-Framed f = record { frame = λ rows s. refl; forward = λ s. omega arith }

update_one-Framed : (id : Text) (f : UserRow → UserRow) → Framed (update_one id f)
unfolding update_one
update_one-Framed id f = >>=-Framed _ _ (read_users-Framed (select (has_id id))) λ rows.
    >>=-Framed _ _ (scalar_one_or_none-Framed (map (λ row. row.id) rows)) λ found.
      >>=-Framed _ _ (write_users-Framed (update_rows id f)) λ _. or_unknown_user-Framed id found

module _ ⦃u : Platform⦄ ⦃r : Runtime⦄ where
  get_by_email-Framed : (email : Text) → Framed (postgres_user_repo.get_by_email email)
  get_by_email-Framed email =
      >>=-Framed _ _ (read_users-Framed (select (has_email (normalize_email email))))
        λ rows. >>=-Framed _ _ (scalar_one_or_none-Framed rows) λ row. pure-Framed (to_domain? row)

  check_user-Framed :
      (dummy_hash candidate : Text) (found : Option User)
      → Framed (check_user postgres_user_repo dummy_hash candidate found)
  unfolding check_user
  check_user-Framed dummy_hash candidate none =
      >>=-Framed _ _ (verify_password-Framed candidate dummy_hash)
        λ mismatch. throw-Framed invalid_credentials
  check_user-Framed dummy_hash candidate (some a) =
      >>=-Framed _ _ (verify_password-Framed candidate a.password_hash) λ matches.
        >>=-Framed _ _ (throw_if-Framed (not matches || not a.is_active) invalid_credentials) λ _.
          >>=-Framed _ _
            (if-Framed (r.needs_rehash a.password_hash) _ _
              (>>=-Framed _ _ (hash_password-Framed candidate)
                λ rehashed. update_one-Framed a.id (λ row. record row { password_hash = rehashed }))
              (pure-Framed tt))
            λ _. pure-Framed (record { subject_id = a.id })

  pub authenticate-Framed :
      (dummy_hash email password : Text) (client_ip : Option Text)
      → Framed (authenticate postgres_user_repo dummy_hash email password client_ip)
  unfolding authenticate
  authenticate-Framed dummy_hash email password client_ip =
      >>=-Framed _ _ (throw_if-Framed (refuses_input email password) invalid_credentials) λ _.
        >>=-Framed _ _ (get_by_email-Framed (normalize_email email))
          λ found. check_user-Framed dummy_hash (normalize_password password) found
