-- ===== src/Auth/Frame.antt =====
-- Calls that neither read nor write the table `login_attempts`, and only draw forward.
use trutina.Base.{
  ℕ, ◌≤◌, ◌≡◌, refl, ap, ◌∙◌, Bool, true, false, List, [], ◌∷◌, arith, Text, if◌then◌else◌,
}
use trutina.Errors.{Error}
use trutina.Store.{Result, ok, raise}
use trutina.Auth.State.{
  Runtime, LoginAttemptRow, AuthState, Auth, pure, throw, draw, throw_if, resume, ◌>>=◌,
  scalar_one_or_none, verify_password, hash_password,
}

-- A state with another table of login attempts.
abbrev pub with_attempts : List LoginAttemptRow → AuthState → AuthState
with_attempts rows s = record s { login_attempts = rows }

abbrev pub over : {A : Type 0} → List LoginAttemptRow → Result A × AuthState → Result A × AuthState
over rows (x, s) = (x, with_attempts rows s)

-- The call is the same whatever the table of login attempts is, and no draw is undone.
pub record Framed {A : Type 0} (m : Auth A) : Type 0 where
  pub frame :
      (rows : List LoginAttemptRow) (s : AuthState) → m (with_attempts rows s) ≡ over rows (m s)
  pub forward : (s : AuthState) → s.draws ≤ (m s).1.draws

module _ {A : Type 0} where
  pub pure-Framed : (a : A) → Framed (pure a)
  pure-Framed a = record { frame = λ rows s. refl; forward = λ s. omega arith }

  pub throw-Framed : (e : Error) → Framed (throw {A = A} e)
  throw-Framed e = record { frame = λ rows s. refl; forward = λ s. omega arith }

  pub draw-Framed : (f : ℕ → A) → Framed (draw f)
  draw-Framed f = record { frame = λ rows s. refl; forward = λ s. omega arith }

  pub scalar_one_or_none-Framed : (rows : List A) → Framed (scalar_one_or_none rows)
  unfolding scalar_one_or_none
  scalar_one_or_none-Framed [] = record { frame = λ rows s. refl; forward = λ s. omega arith }
  scalar_one_or_none-Framed (a ∷ []) = record { frame = λ rows s. refl; forward = λ s. omega arith }
  scalar_one_or_none-Framed (a ∷ b ∷ rest) = record {
    frame = λ rows s. refl;
    forward = λ s. omega arith;
  }

  pub if-Framed : (b : Bool) (m n : Auth A) → Framed m → Framed n → Framed (if b then m else n)
  if-Framed true m n hm hn = hm
  if-Framed false m n hm hn = hn

pub throw_if-Framed : (b : Bool) (e : Error) → Framed (throw_if b e)
throw_if-Framed true e = record { frame = λ rows s. refl; forward = λ s. omega arith }
throw_if-Framed false e = record { frame = λ rows s. refl; forward = λ s. omega arith }

module _ {A B : Type 0} where
  resume-over :
      (rows : List LoginAttemptRow) (x : Result A × AuthState) (k : A → Auth B)
      → ((a : A) → Framed (k a))
      → resume (over rows x) k ≡ over rows (resume x k)
  resume-over rows (ok a, s) k h = (h a).frame rows s
  resume-over rows (raise e, s) k h = refl

  resume-forward :
      (x : Result A × AuthState) (k : A → Auth B)
      → ((a : A) → Framed (k a))
      → x.1.draws ≤ (resume x k).1.draws
  resume-forward (ok a, s) k h = (h a).forward s
  resume-forward (raise e, s) k h = omega arith

  pub >>=-Framed :
      (m : Auth A) (k : A → Auth B) → Framed m → ((a : A) → Framed (k a)) → Framed (m >>= k)
  >>=-Framed m k hm hk = record {
    frame = λ rows s. ap (λ x. resume x k) (hm.frame rows s) ∙ resume-over rows (m s) k hk;
    forward = λ s. omega (arith, hm.forward s, resume-forward (m s) k hk);
  }

module _ ⦃r : Runtime⦄ where
  pub verify_password-Framed :
      (candidate password_hash : Text) → Framed (verify_password candidate password_hash)
  verify_password-Framed candidate password_hash = record {
    frame = λ rows s. refl;
    forward = λ s. omega arith;
  }

  pub hash_password-Framed : (candidate : Text) → Framed (hash_password candidate)
  hash_password-Framed candidate = record { frame = λ rows s. refl; forward = λ s. omega arith }
