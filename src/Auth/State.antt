-- ===== src/Auth/State.antt =====
-- What authentication shares: the tables `users` and `login_attempts` (model.py of
-- storage_postgres/identity and login_attempt), the events, and what the collaborators that are not
-- implemented here (clock, random source, password hasher, Unicode tables) answer. Instants are
-- counted from `datetime.min`, in microseconds.
use trutina.Base.{
  ℕ, suc, ◌≡◌, Bool, true, false, Option, none, some, List, [], ◌∷◌, ◌++◌, Text, String,
}
use trutina.Errors.{Error, unknown}
use trutina.Store.{Result, ok, raise, Done}

-- The answers of the collaborators. What is drawn (an instant, an id, a salt) depends on how many
-- draws were made before.
pub record Runtime : Type 0 where
  -- `Clock.now()`
  pub now : ℕ → ℕ
  -- `now()` of the database
  pub database_now : ℕ → ℕ
  pub uuid4 : ℕ → Text
  -- `PasswordHasher.hash`, `verify` and `needs_rehash`
  pub hash : ℕ → Text → Text
  pub verify : Text → Text → Bool
  pub needs_rehash : Text → Bool
  -- `unicodedata.normalize("NFKC", s)`
  pub nfkc : Text → Text
  -- `unicodedata.category(chr(c)).startswith("C")`
  pub is_other : ℕ → Bool
  -- a password is verified against a hash that was made of it
  pub verify-hash : (n : ℕ) (password : Text) → verify password (hash n password) ≡ true

pub record UserRow : Type 0 where
  pub id : Text
  pub email : Text
  pub password_hash : Text
  pub is_active : Bool
  pub created_at : ℕ

pub record LoginAttemptRow : Type 0 where
  pub ip : Text
  pub email_key : Text
  pub attempted_at : ℕ

pub record AuthEvent : Type 0 where
  pub name : String
  pub context : List (String × Text)

-- A call of the hasher that costs its work: on a password, or on a password and a hash.
pub data HasherCall : Type 0 where
  hashed : Text → HasherCall
  verified : Text → Text → HasherCall

pub record AuthState : Type 0 where
  pub users : List UserRow
  pub login_attempts : List LoginAttemptRow
  pub events : List AuthEvent
  pub hasher_calls : List HasherCall
  -- the draws made so far
  pub draws : ℕ

abbrev pub Auth : Type 0 → Type 0
Auth A = AuthState → Result A × AuthState

module _ {A : Type 0} where
  abbrev pub pure : A → Auth A
  pure a s = (ok a, s)

  abbrev pub throw : Error → Auth A
  throw e s = (raise e, s)

  abbrev pub gets : (AuthState → A) → Auth A
  gets f s = (ok (f s), s)

  abbrev pub draw : (ℕ → A) → Auth A
  draw f s = (ok (f s.draws), record s { draws = suc s.draws })

  -- `result.scalar_one_or_none()`: more than one row is an error of SQLAlchemy.
  unfoldable pub scalar_one_or_none : List A → Auth (Option A)
  scalar_one_or_none [] s = (ok none, s)
  scalar_one_or_none (a ∷ []) s = (ok (some a), s)
  scalar_one_or_none (a ∷ b ∷ rows) s = (raise unknown, s)

-- What follows a call, given what the call came to.
abbrev pub resume : {A B : Type 0} → Result A × AuthState → (A → Auth B) → Result B × AuthState
resume (ok a, s) f = f a s
resume (raise e, s) f = (raise e, s)

infixl 5 ◌>>=◌ ◌>>◌
abbrev pub ◌>>=◌ : {A B : Type 0} → Auth A → (A → Auth B) → Auth B
◌>>=◌ m f s = resume (m s) f

abbrev pub ◌>>◌ : {B : Type 0} → Auth Done → Auth B → Auth B
m >> k = m >>= λ _. k

abbrev pub throw_if : Bool → Error → Auth Done
throw_if true e s = (raise e, s)
throw_if false e s = (ok tt, s)

-- `AuthEventSink.emit`
abbrev pub emit : AuthEvent → Auth Done
emit e s = (ok tt, record s { events = s.events ++ e ∷ [] })

module _ ⦃r : Runtime⦄ where
  -- `await hasher.verify(candidate, password_hash)`
  abbrev pub verify_password : Text → Text → Auth Bool
  verify_password candidate password_hash s = (
    ok (r.verify candidate password_hash),
    record s { hasher_calls = s.hasher_calls ++ verified candidate password_hash ∷ [] },
  )

  -- `await hasher.hash(candidate)`
  abbrev pub hash_password : Text → Auth Text
  hash_password candidate s = (
    ok (r.hash s.draws candidate),
    record s { hasher_calls = s.hasher_calls ++ hashed candidate ∷ []; draws = suc s.draws },
  )
