-- ===== src/Auth/Login.antt =====
-- authentication/credentials/login/password_authenticator.py: PasswordAuthenticator.
pub mod Framed
pub mod Outcome
use trutina.Base.{
  ℕ, Bool, true, false, not, ◌||◌, Option, none, some, [], ltb, if◌then◌else◌, length, Text,
}
use trutina.Platform.{Platform}
use trutina.Errors.{Error, app_error, auth_invalid_credentials}
use trutina.Store.{Done}
use trutina.Auth.Email.{max_email_length, is_empty, normalize_email}
use trutina.Auth.Password.{max_password_length, normalize_password}
use trutina.Auth.State.{
  Runtime, Auth, pure, throw, throw_if, draw, hash_password, verify_password, ◌>>=◌, ◌>>◌,
}
use trutina.Auth.Users.{User, Identity, UserRepo}

-- The contract `Authenticator`: an address and a password as typed, and the client's address.
abbrev pub Authenticator : Type 0
Authenticator = Text → Text → Option Text → Auth Identity

-- `_invalid_credentials`
unfoldable pub invalid_credentials : Error
invalid_credentials = app_error (record { code = auth_invalid_credentials; context = [] })

module _ ⦃u : Platform⦄ ⦃r : Runtime⦄ where
  -- The checks on the input, which need no user.
  unfoldable pub refuses_input : Text → Text → Bool
  unfolding normalize_password normalize_email is_empty
  refuses_input email raw =
      let secret = normalize_password raw in
      ltb max_password_length (length raw)
      || ((is_empty secret || ltb max_password_length (length secret))
          || ltb max_email_length (length (normalize_email email)))

  -- `create`: `token` is the random text that the dummy hash is made of.
  unfoldable pub create_dummy_hash : (ℕ → Text) → Auth Text
  create_dummy_hash token_urlsafe = do token ← draw token_urlsafe; hash_password token

  module _ (users : UserRepo) (dummy_hash : Text) where
    -- What follows the lookup of the user.
    unfoldable pub check_user : Text → Option User → Auth Identity
    unfolding invalid_credentials
    check_user candidate none = do
      mismatch ← verify_password candidate dummy_hash
      throw invalid_credentials
    check_user candidate (some a) = do
      matches ← verify_password candidate a.password_hash
      throw_if (not matches || not a.is_active) invalid_credentials
      (if r.needs_rehash a.password_hash
          then (do rehashed ← hash_password candidate; users.update_password_hash a.id rehashed)
          else pure tt)
      pure (record { subject_id = a.id })

    -- `authenticate`
    unfoldable pub authenticate : Authenticator
    unfolding refuses_input check_user normalize_email normalize_password invalid_credentials
    authenticate email raw client_ip = do
      throw_if (refuses_input email raw) invalid_credentials
      found ← users.get_by_email (normalize_email email)
      check_user (normalize_password raw) found
