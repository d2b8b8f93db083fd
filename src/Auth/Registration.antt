-- ===== src/Auth/Registration.antt =====
-- authentication/credentials/users/registration.py: RegistrationService.register.
pub mod Outcome
pub mod SignIn
use trutina.Base.{
  Bool, true, false, not, Option, none, some, List, [], ◌∷◌, ◌++◌, if◌then◌else◌, Text, to_list,
}
use trutina.Platform.{Platform}
use trutina.Errors.{FieldViolation, string, invalid_email, validation_app_error}
use trutina.Store.{Done}
use trutina.Auth.Email.{normalize_email, is_well_formed_email}
use trutina.Auth.Password.{check_password}
use trutina.Auth.State.{
  Runtime, AuthEvent, Auth, pure, throw, throw_if, draw, emit, hash_password, ◌>>=◌, ◌>>◌,
}
use trutina.Auth.Users.{User, UserRepo, user, duplicate_email}

pub record RegisterInput : Type 0 where
  pub email : Text
  pub password : Text

pub record RegisteredUser : Type 0 where
  pub id : Text
  pub email : Text

abbrev invalid_email_violation : FieldViolation
invalid_email_violation = record { code = invalid_email; field = "email"; value = string [] }

abbrev pub is_some : {A : Type 0} → Option A → Bool
is_some none = false
is_some (some a) = true

abbrev pub registered_event : Text → AuthEvent
registered_event id = record { name = "auth.user_registered"; context = ("subject_id", id) ∷ [] }

module _ ⦃u : Platform⦄ ⦃r : Runtime⦄ where
  -- The list `violations` when the inputs have been checked.
  unfoldable pub violations : RegisterInput → List FieldViolation
  unfolding normalize_email is_well_formed_email check_password
  violations input =
      (if is_well_formed_email r.is_other (normalize_email input.email)
        then []
        else invalid_email_violation ∷ [])
      ++ to_list (check_password input.password).1

  unfoldable pub raise_violations : List FieldViolation → Auth Done
  raise_violations [] = pure tt
  raise_violations (v ∷ vs) = throw (validation_app_error (v ∷ vs))

  -- `register`
  unfoldable pub register : UserRepo → RegisterInput → Auth RegisteredUser
  unfolding normalize_email check_password violations raise_violations user duplicate_email
  register users input = do
    let email = normalize_email input.email
    raise_violations (violations input)
    existing ← users.get_by_email email
    throw_if (is_some existing) duplicate_email
    password_hash ← hash_password (check_password input.password).0
    id ← draw r.uuid4
    created_at ← draw r.now
    let a = user id email password_hash true created_at
    users.create a
    emit (registered_event a.id)
    pure (record { id = a.id; email = a.email })
