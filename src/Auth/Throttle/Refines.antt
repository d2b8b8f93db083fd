-- ===== src/Auth/Throttle/Refines.antt =====
-- ThrottledAuthenticator over PostgresLoginAttemptRepo against the history, one login at a time.
use trutina.Base.{
  ℕ, suc, ◌-◌, ◌≤◌, ◌<◌, ◌≡◌, refl, sym, ap, ◌∙◌, true, false, Option, [], ◌∷◌, ◌++◌, arith, inl,
  inr, Bool-cases, if_elim, Text, subst, leb, ltb, length,
}
use trutina.Platform.{Platform}
use trutina.Errors.{Error}
use trutina.Store.{Result, ok, raise}
use trutina.Auth.Email.{max_email_length, normalize_email}
use trutina.Auth.Email.Normal.{normalize_email-normalize_email}
use trutina.Auth.State.{Runtime, AuthState, pure, ◌>>◌}
use trutina.Auth.Frame.{Framed, with_attempts, over}
use trutina.Auth.Users.{Identity}
use trutina.Auth.Attempts.{count_rows, clear_rows, purge_rows, postgres_login_attempt_repo}
use trutina.Auth.Login.{Authenticator}
use trutina.Auth.Throttle.{
  Throttle, window, minus, client, is_invalid_credentials, note_failure, settle, authenticate,
}
use trutina.Auth.Throttle.History.{succeeded, History, Ending, recent, conclude, decide}
use trutina.Auth.Throttle.Agree.{
  Monotone, Agrees, Agrees-later, Agrees-failed, Agrees-unfailed, Agrees-cleared, attempt_row,
}

module _ ⦃u : Platform⦄ ⦃r : Runtime⦄ (t : Throttle) where
  -- A state of the program and one of the history that stand for the same past.
  pub record Tracks (s : AuthState) (p : AuthState × History) : Type 0 where
    pub same_state : p.0 ≡ with_attempts [] s
    pub agrees : Agrees t s.draws s.login_attempts p.1

  -- Two logins that come to the same, in states that stand for the same past.
  abbrev pub Follows : Result Identity × AuthState → Ending → Type 0
  Follows (x, s) (y, p) = (x ≡ y) × Tracks s p

  module _ (monotone : Monotone t) (ip key : Text) (normal : normalize_email key ≡ key) (start : ℕ)
      (enough : window t ≤ r.now start) (h : History) where
    -- What the history counted when the login began.
    abbrev counted_before : ℕ
    counted_before = recent ip key (r.now start - window t) h

    after_success :
        (identity : Identity) (s : AuthState)
        → start ≤ s.draws
        → Agrees t start s.login_attempts h
        → Follows
            (settle postgres_login_attempt_repo t ip key counted_before (ok identity, s))
            (ok identity, (with_attempts [] s, succeeded ip key ∷ h))
    unfolding settle
    after_success identity s from a =
        if_elim
          (λ m.
            Follows ((m >> pure identity) s)
              (ok identity, (with_attempts [] s, succeeded ip key ∷ h)))
          (leb 1 counted_before)
          (λ some_failed. (
            refl,
            record {
              same_state = refl;
              agrees =
                  subst
                    (λ k.
                      Agrees t s.draws (clear_rows ip k s.login_attempts) (succeeded ip key ∷ h))
                    (sym normal)
                    (Agrees-cleared t monotone start s.draws from s.login_attempts h ip key a);
            },
          ))
          (λ none_failed. (
            refl,
            record {
              same_state = refl;
              agrees =
                  Agrees-unfailed t monotone start s.draws from s.login_attempts h ip key a
                    (ground arith);
            },
          ))

    -- The state when a failure was recorded and the table purged.
    abbrev with_failure : AuthState → AuthState
    with_failure s = record s {
      draws = suc s.draws;
      login_attempts =
          purge_rows (r.now s.draws - window t)
            (s.login_attempts ++ attempt_row ip key (r.now s.draws) ∷ []);
    }

    note_failure_lem :
        (e : Error) (s : AuthState)
        → start ≤ s.draws
        → is_invalid_credentials e ≡ true
        → note_failure postgres_login_attempt_repo t ip key e s ≡ (ok tt, with_failure s)
    unfolding note_failure minus
    note_failure_lem e s from invalid = rw (invalid, normal, no_overflow) refl
      where
        no_overflow : ltb (r.now s.draws) (window t) ≡ false
        no_overflow = ground (arith, monotone start s.draws from)

    after_failure :
        (e : Error) (s : AuthState)
        → start ≤ s.draws
        → Agrees t start s.login_attempts h
        → counted_before < t.max_failures
        → Follows
            (settle postgres_login_attempt_repo t ip key counted_before (raise e, s))
            (conclude t ip key h (raise e, with_attempts [] s))
    unfolding settle conclude note_failure
    after_failure e s from a below = elim (Bool-cases (is_invalid_credentials e)) [
      | inl invalid ↦
          rw (note_failure_lem e s from invalid, invalid)
            (
              refl,
              record {
                same_state = refl;
                agrees =
                    Agrees-failed t monotone start s.draws from s.login_attempts h ip key a below;
              },
            )
      | inr other ↦ rw other (
        refl,
        record {
          same_state = refl;
          agrees = Agrees-later t start s.draws s.login_attempts h from a;
        },
      )
    ]

    after_attempt :
        (x : Result Identity × AuthState)
        → start ≤ x.1.draws
        → Agrees t start x.1.login_attempts h
        → counted_before < t.max_failures
        → Follows
            (settle postgres_login_attempt_repo t ip key counted_before x)
            (conclude t ip key h (over [] x))
    unfolding conclude
    after_attempt (ok identity, s) from a below = after_success identity s from a
    after_attempt (raise e, s) from a below = after_failure e s from a below

  module _ (monotone : Monotone t) (inner : Authenticator)
      (framed : (email password : Text) (client_ip : Option Text)
        → Framed (inner email password client_ip))
      (email password : Text) (client_ip : Option Text) where
    abbrev the_key : Text
    the_key = normalize_email email

    -- The inner call leaves the table as it is.
    inner_rows :
        (s : AuthState) → s.login_attempts ≡ (inner email password client_ip s).1.login_attempts
    inner_rows s =
        sym (
          ap (λ x. x.1.login_attempts) ((framed email password client_ip).frame s.login_attempts s))

    inner_forward : (s : AuthState) → s.draws ≤ (inner email password client_ip s).1.draws
    inner_forward s = (framed email password client_ip).forward s

    unthrottled :
        (s : AuthState) (h : History)
        → Agrees t s.draws s.login_attempts h
        → Follows (inner email password client_ip s) (
          (inner email password client_ip (with_attempts [] s)).0,
          ((inner email password client_ip (with_attempts [] s)).1, h),
        )
    unthrottled s h a =
        let same = (framed email password client_ip).frame [] s in
        (
          sym (ap (λ x. x.0) same),
          record {
            same_state = ap (λ x. x.1) same;
            agrees =
                subst (λ rows. Agrees t (inner email password client_ip s).1.draws rows h)
                  (inner_rows s)
                  (Agrees-later t s.draws (inner email password client_ip s).1.draws
                    s.login_attempts h (inner_forward s) a);
          },
        )

    abbrev drawn : AuthState → AuthState
    drawn s = record s { draws = suc s.draws }

    attempted :
        (s : AuthState) (h : History)
        → Agrees t s.draws s.login_attempts h
        → window t ≤ r.now s.draws
        → recent (client client_ip) the_key (r.now s.draws - window t) h < t.max_failures
        → Follows
            (settle postgres_login_attempt_repo t
              (client client_ip)
              the_key
              (recent (client client_ip) the_key (r.now s.draws - window t) h)
              (inner email password client_ip (drawn s)))
            (conclude t
              (client client_ip)
              the_key
              h
              (inner email password client_ip (with_attempts [] (drawn s))))
    attempted s h a enough below =
        let same = (framed email password client_ip).frame [] (drawn s) in
        subst
          (λ y.
            Follows
              (settle postgres_login_attempt_repo t (client client_ip) the_key
                (recent (client client_ip) the_key (r.now s.draws - window t) h)
                (inner email password client_ip (drawn s)))
              (conclude t (client client_ip) the_key h y))
          (sym same)
          (after_attempt monotone (client client_ip) the_key (normalize_email-normalize_email email)
            s.draws enough h (inner email password client_ip (drawn s))
            (omega (arith, inner_forward (drawn s)))
            (subst (λ rows. Agrees t s.draws rows h) (inner_rows (drawn s)) a) below)

    authenticate-Follows :
        (s : AuthState) (h : History)
        → Agrees t s.draws s.login_attempts h
        → Follows
            (authenticate postgres_login_attempt_repo t inner email password client_ip s)
            (decide t inner email password client_ip (with_attempts [] s, h))
    unfolding authenticate decide minus
    authenticate-Follows s h a = elim (Bool-cases (ltb max_email_length (length the_key))) [
      | inl long ↦ rw long (unthrottled s h a)
      | inr short ↦ elim (Bool-cases (ltb (r.now s.draws) (window t))) [
        | inl early ↦ rw (short, early) (refl, record { same_state = refl; agrees = later })
        | inr late ↦
            let counts =
              ap (λ k. count_rows (client client_ip) k (r.now s.draws - window t) s.login_attempts)
                (normalize_email-normalize_email email)
              ∙ a.agree (client client_ip) the_key (r.now s.draws - window t)
                  (a.ahead s.draws (omega arith)) in
            elim (Bool-cases (
              leb t.max_failures
                (recent (client client_ip) the_key (r.now s.draws - window t) h))) [
                  | inl full ↦
                      rw (short, late, counts, full)
                        (refl, record { same_state = refl; agrees = later })
                  | inr open_still ↦
                      rw (short, late, counts, open_still)
                        (attempted s h a (ground arith) (ground arith))
                ]
      ]
    ]
      where
        later : Agrees t (suc s.draws) s.login_attempts h
        later = Agrees-later t s.draws (suc s.draws) s.login_attempts h (omega arith) a

    -- x
    pub authenticate-refines :
        (s : AuthState) (p : AuthState × History)
        → Tracks s p
        → Follows
            (authenticate postgres_login_attempt_repo t inner email password client_ip s)
            (decide t inner email password client_ip p)
    authenticate-refines s (s', h) tracks =
        subst
          (λ v.
            Follows (authenticate postgres_login_attempt_repo t inner email password client_ip s)
              (decide t inner email password client_ip (v, h)))
          (sym tracks.same_state) (authenticate-Follows s h tracks.agrees)
