-- ===== src/Auth/Throttle/Runs.antt =====
-- Logins one after another: the throttled PasswordAuthenticator over the tables, against the
-- history.
use trutina.Base.{ℕ, ◌-◌, ◌≤◌, ◌≡◌, refl, sym, ap, ap₂, subst, Option, List, [], ◌∷◌, arith, Text}
use trutina.Platform.{Platform}
use trutina.Store.{Result}
use trutina.Auth.State.{Runtime, AuthState}
use trutina.Auth.Frame.{with_attempts}
use trutina.Auth.Users.{Identity, postgres_user_repo}
use trutina.Auth.Attempts.{count_rows, postgres_login_attempt_repo}
use trutina.Auth.Login.{authenticate}
use trutina.Auth.Login.Framed.{authenticate-Framed}
use trutina.Auth.Throttle.{Throttle, window, authenticate as authenticate_throttled}
use trutina.Auth.Throttle.History.{History, Ending, decide}
use trutina.Auth.Throttle.Agree.{Monotone, Agrees, Agrees-empty}
use trutina.Auth.Throttle.Refines.{Tracks, authenticate-refines}

pub record Credentials : Type 0 where
  pub email : Text
  pub password : Text
  pub client_ip : Option Text

-- The results of logins one after another, and the state after the last.
abbrev pub run {ℓ} :
    {S : Type ℓ}
    → (Credentials → S → Result Identity × S)
    → List Credentials
    → S
    → List (Result Identity) × S
run login [] s = ([], s)
run login (c ∷ rest) s = let x = login c s in let y = run login rest x.1 in (x.0 ∷ y.0, y.1)

module _ ⦃u : Platform⦄ ⦃r : Runtime⦄ (t : Throttle) (dummy_hash : Text) where
  -- The authenticator of the program: the throttle around the check of passwords.
  abbrev pub login : Credentials → AuthState → Result Identity × AuthState
  login c =
      authenticate_throttled postgres_login_attempt_repo t
        (authenticate postgres_user_repo dummy_hash) c.email c.password c.client_ip

  abbrev pub login_by_history : Credentials → AuthState × History → Ending
  login_by_history c =
      decide t (authenticate postgres_user_repo dummy_hash) c.email c.password c.client_ip

  module _ (monotone : Monotone t) where
    run-Tracks :
        (cs : List Credentials) (s : AuthState) (p : AuthState × History)
        → Tracks t s p
        → ((run login cs s).0 ≡ (run login_by_history cs p).0)
          × Tracks t (run login cs s).1 (run login_by_history cs p).1
    run-Tracks [] s p tracks = (refl, tracks)
    run-Tracks (c ∷ cs) s p tracks =
        let (same, after) =
          authenticate-refines t monotone (authenticate postgres_user_repo dummy_hash)
            (authenticate-Framed dummy_hash) c.email c.password c.client_ip s p tracks in
        let (rest, end) = run-Tracks cs (login c s).1 (login_by_history c p).1 after in
        (ap₂ ◌∷◌ same rest, end)

    starts-Tracks : (s : AuthState) → s.login_attempts ≡ [] → Tracks t s (s, [])
    starts-Tracks s empty = record {
      same_state = ap (λ rows. with_attempts rows s) empty;
      agrees = subst (λ rows. Agrees t s.draws rows []) (sym empty) (Agrees-empty t s.draws);
    }

    -- If the clock does not go back and no login attempt is stored, then throttled logins one after
    -- another come to the same results, and leave the same users, events, hasher calls and draws,
    -- as logins that are throttled by a history which forgets nothing: a pair of client and address
    -- counts its failures within the window and after its last success.
    pub run-refines :
        (cs : List Credentials) (s : AuthState)
        → s.login_attempts ≡ []
        → ((run login cs s).0 ≡ (run login_by_history cs (s, [])).0)
          × (with_attempts [] (run login cs s).1 ≡ (run login_by_history cs (s, [])).1.0)
    run-refines cs s empty =
        let (same, tracks) = run-Tracks cs s (s, []) (starts-Tracks s empty) in
        (same, sym tracks.same_state)

    -- If the clock does not go back and no login attempt was stored at first, then after throttled
    -- logins one after another the failures counted for a client and an address, within the window
    -- before any later reading of the clock, are at most max_failures.
    pub run-bound :
        (cs : List Credentials) (s : AuthState) (ip key : Text) (n : ℕ)
        → s.login_attempts ≡ []
        → (run login cs s).1.draws ≤ n
        → count_rows ip key (r.now n - window t) (run login cs s).1.login_attempts ≤ t.max_failures
    run-bound cs s ip key n empty later =
        let (same, tracks) = run-Tracks cs s (s, []) (starts-Tracks s empty) in
        let a = tracks.agrees in
        let reaches = a.ahead n later in
        omega (
          arith,
          a.agree ip key (r.now n - window t) reaches,
          a.bound ip key (r.now n - window t) reaches,
        )
