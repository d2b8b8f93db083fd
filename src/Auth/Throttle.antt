-- ===== src/Auth/Throttle.antt =====
-- authentication/credentials/login/throttled_authenticator.py: ThrottledAuthenticator.
pub mod History
pub mod Agree
pub mod Refines
pub mod Runs
use trutina.Base.{
  ℕ, ◌-◌, ◌*◌, Bool, true, false, Option, none, some, [], ◌∷◌, ltb, leb, if◌then◌else◌, length,
  Text, text, str_of,
}
use trutina.Platform.{Platform}
use trutina.Errors.{
  ErrorCode, Error, app_error, validation_app_error, schema_error, builtin_error,
  auth_invalid_credentials, throttled,
}
use trutina.Store.{Done, Result, ok, raise}
use trutina.Auth.Email.{max_email_length, normalize_email}
use trutina.Auth.State.{
  Runtime, AuthEvent, AuthState, Auth, pure, throw, throw_if, draw, emit, ◌>>=◌, ◌>>◌,
}
use trutina.Auth.Users.{Identity}
use trutina.Auth.Attempts.{LoginAttemptRepo}
use trutina.Auth.Login.{Authenticator}

pub record Throttle : Type 0 where
  pub max_failures : ℕ
  pub window_seconds : ℕ

-- The checks of the constructor: none for a `ValueError`.
unfoldable pub throttle : ℕ → ℕ → Option Throttle
throttle max_failures window_seconds =
    if ltb max_failures 1
    then none
    else if ltb window_seconds 1
    then none
    else some (record { max_failures = max_failures; window_seconds = window_seconds })

-- `timedelta(seconds=window_seconds)`
abbrev pub window : Throttle → ℕ
window t = t.window_seconds * 1000000

-- An instant less a span: before `datetime.min` there is none.
unfoldable pub minus : ℕ → ℕ → Auth ℕ
minus instant span =
    if ltb instant span then throw (builtin_error "OverflowError") else pure (instant - span)

-- UNKNOWN_CLIENT_IP
abbrev pub unknown_client_ip : Text
unknown_client_ip = text "unknown"

-- `client_ip or UNKNOWN_CLIENT_IP`
unfoldable pub client : Option Text → Text
client none = unknown_client_ip
client (some []) = unknown_client_ip
client (some (c ∷ ip)) = c ∷ ip

-- `error.code is ErrorCode.AUTH_INVALID_CREDENTIALS`, for an `AppError`
unfoldable pub is_invalid_credentials : Error → Bool
is_invalid_credentials (app_error e) = is_code e.code
  where
    is_code : ErrorCode → Bool
    is_code auth_invalid_credentials = true
    is_code _ = false
is_invalid_credentials _ = false

abbrev pub throttled_event : ℕ → AuthEvent
throttled_event seconds = record {
  name = "auth.login_throttled";
  context = ("retry_after_seconds", str_of seconds) ∷ [];
}

module _ ⦃u : Platform⦄ ⦃r : Runtime⦄ where
  module _ (attempts : LoginAttemptRepo) (t : Throttle) where
    -- `except AppError as error`
    unfoldable pub note_failure : Text → Text → Error → Auth Done
    unfolding minus is_invalid_credentials
    note_failure ip key e =
        if is_invalid_credentials e
        then (do
          failed_at ← draw r.now
          attempts.record_failure ip key failed_at
          cutoff ← minus failed_at (window t)
          purged ← attempts.purge_before cutoff
          pure tt)
        else pure tt

    -- What follows the inner authenticator.
    unfoldable pub settle :
        Text → Text → ℕ → Result Identity × AuthState → Result Identity × AuthState
    unfolding note_failure
    settle ip key failures (ok identity, s) =
        (do (if leb 1 failures then attempts.clear ip key else pure tt); pure identity) s
    settle ip key failures (raise e, s) = (note_failure ip key e >> throw e) s

    -- `authenticate`
    unfoldable pub authenticate : Authenticator → Authenticator
    unfolding minus settle client throttled normalize_email
    authenticate inner email password client_ip =
        let key = normalize_email email in
        let ip = client client_ip in
        if ltb max_email_length (length key) then inner email password client_ip else (do
          now ← draw r.now
          since ← minus now (window t)
          failures ← attempts.count_failures ip key since
          if leb t.max_failures failures
              then (do emit (throttled_event t.window_seconds); throw (throttled t.window_seconds))
              else (λ s. settle ip key failures (inner email password client_ip s)))
