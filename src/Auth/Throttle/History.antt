-- ===== src/Auth/Throttle/History.antt =====
-- What the throttle promises, without a table: the attempts of the past are kept for ever, and
-- those of a pair count that failed since an instant and after its last success.
use trutina.Base.{
  ℕ, suc, ◌-◌, ◌&&◌, Option, List, [], ◌∷◌, leb, ltb, if◌then◌else◌, length, Text, same,
}
use trutina.Platform.{Platform}
use trutina.Errors.{throttled, builtin_error}
use trutina.Store.{Result, ok, raise}
use trutina.Auth.Email.{max_email_length, normalize_email}
use trutina.Auth.State.{Runtime, AuthState}
use trutina.Auth.Users.{Identity}
use trutina.Auth.Login.{Authenticator}
use trutina.Auth.Throttle.{Throttle, window, client, is_invalid_credentials, throttled_event}
use trutina.Base.{◌++◌}

pub data Attempt : Type 0 where
  failed : Text → Text → ℕ → Attempt
  succeeded : Text → Text → Attempt

-- The newest attempt comes first.
abbrev pub History : Type 0
History = List Attempt

-- The failures of a pair since an instant, after its last success.
unfoldable pub recent : Text → Text → ℕ → History → ℕ
recent ip key since [] = 0
recent ip key since (failed ip' key' at ∷ older) =
    let rest = recent ip key since older in
    if (same ip' ip && same key' key) && leb since at then suc rest else rest
recent ip key since (succeeded ip' key' ∷ older) =
    let rest = recent ip key since older in if same ip' ip && same key' key then 0 else rest

-- What a login comes to, with the state and the history after it.
abbrev pub Ending : Type 0
Ending = Result Identity × (AuthState × History)

module _ ⦃u : Platform⦄ ⦃r : Runtime⦄ (t : Throttle) where
  -- What the history keeps of an attempt that the inner authenticator decided.
  unfoldable pub conclude : Text → Text → History → Result Identity × AuthState → Ending
  unfolding is_invalid_credentials
  conclude ip key h (ok identity, s) = (ok identity, (s, succeeded ip key ∷ h))
  conclude ip key h (raise e, s) =
      if is_invalid_credentials e
      then (raise e, (record s { draws = suc s.draws }, failed ip key (r.now s.draws) ∷ h))
      else (raise e, (s, h))

  -- A login, throttled by the history.
  unfoldable pub decide : Authenticator → Text → Text → Option Text → AuthState × History → Ending
  unfolding conclude recent client throttled normalize_email
  decide inner email password client_ip (s, h) =
      let key = normalize_email email in
      let ip = client client_ip in
      let now = r.now s.draws in
      let drawn : AuthState = record s { draws = suc s.draws } in
      if ltb max_email_length (length key)
      then (let (x, s') = inner email password client_ip s in (x, (s', h)))
      else if ltb now (window t)
      then (raise (builtin_error "OverflowError"), (drawn, h))
      else if leb t.max_failures (recent ip key (now - window t) h)
      then (
        raise (throttled t.window_seconds),
        (record drawn { events = s.events ++ throttled_event t.window_seconds ∷ [] }, h),
      )
      else conclude ip key h (inner email password client_ip drawn)
