-- ===== src/Auth/Registration/Outcome.antt =====
-- RegistrationService over PostgresUserRepo, from the call to its end.
use trutina.Base.{
  suc, ◌≡◌, ◌≢◌, refl, true, false, List, [], ◌∷◌, ◌++◌, Text, inl, inr, ◌⊎◌, Bool-cases, any,
  find-none, find-any,
}
use mathlib.Core.List.{cons≢nil}
use trutina.Platform.{Platform}
use trutina.Errors.{FieldViolation, validation_app_error, unknown}
use trutina.Store.{Result, ok, raise, Done}
use trutina.Auth.Email.{normalize_email}
use trutina.Auth.Email.Normal.{normalize_email-normalize_email}
use trutina.Auth.Password.{check_password}
use trutina.Auth.State.{Runtime, UserRow, AuthState, hashed, Auth, pure, emit, ◌>>=◌, ◌>>◌}
use trutina.Auth.Users.{
  has_id, has_email, duplicate_email, on_duplicate, insert_user, user, postgres_user_repo,
}
use trutina.Auth.Users.Table.{IsUsers, IsUsers-append}
use trutina.Auth.Users.Reads.{get_by_email_lem}
use trutina.Auth.Registration.{
  RegisterInput, RegisteredUser, registered_event, violations, raise_violations, register,
}

module _ ⦃u : Platform⦄ ⦃r : Runtime⦄ (input : RegisterInput) (s : AuthState) where
  abbrev address : Text
  address = normalize_email input.email

  abbrev password : Text
  password = (check_password input.password).0

  -- The state when the hash, the id and the times have been drawn.
  abbrev pub prepared : AuthState
  prepared = record s {
    hasher_calls = s.hasher_calls ++ hashed password ∷ [];
    draws = suc (suc (suc (suc s.draws)));
  }

  -- The row that a registration adds.
  abbrev pub registered_row : UserRow
  registered_row = record {
    id = r.uuid4 (suc s.draws);
    email = address;
    password_hash = r.hash s.draws password;
    is_active = true;
    created_at = r.database_now (suc (suc (suc s.draws)));
  }

  -- The state after a registration.
  abbrev pub registered : AuthState
  registered = record prepared {
    users = s.users ++ registered_row ∷ [];
    events = s.events ++ registered_event registered_row.id ∷ [];
  }

  -- What a registration came to, by how it ended: it refused the input or the address before any
  -- work, or the new id was taken, or it stored the user.
  abbrev pub Registers : Result RegisteredUser × AuthState → Type 0
  Registers (ok v, s') =
      (violations input ≡ [])
      × (any (has_email address) s.users ≡ false)
      × (v ≡ record { id = registered_row.id; email = address })
      × (s' ≡ registered)
      × IsUsers s'.users
  Registers (raise e, s') =
      ((violations input ≢ []) × (e ≡ validation_app_error (violations input)) × (s' ≡ s))
      ⊎ (((any (has_email address) s.users ≡ true) × (e ≡ duplicate_email) × (s' ≡ s))
          ⊎ ((any (has_id registered_row.id) s.users ≡ true) × (e ≡ unknown) × (s' ≡ prepared)))

  -- `register` behind the checks.
  abbrev stores : Result RegisteredUser × AuthState
  stores =
      (insert_user registered_row
          >> (emit (registered_event registered_row.id)
              >> pure (record { id = registered_row.id; email = address })))
        prepared

  stores-Registers :
      IsUsers s.users
      → violations input ≡ []
      → any (has_email address) s.users ≡ false
      → Registers stores
  unfolding insert_user on_duplicate
  stores-Registers users fine new = elim (Bool-cases (any (has_id registered_row.id) s.users)) [
    | inl taken ↦ rw taken (inr (inr (taken, refl, refl)))
    | inr fresh ↦
        rw (fresh, new)
          (
            fine,
            new,
            refl,
            refl,
            IsUsers-append s.users registered_row users fresh new
                (normalize_email-normalize_email input.email),
          )
  ]

  raise_violations-nonempty :
      (vs : List FieldViolation) {A : Type 0} (k : Done → Auth A)
      → vs ≢ []
      → (raise_violations vs >>= k) s ≡ (raise (validation_app_error vs), s)
  unfolding raise_violations
  raise_violations-nonempty [] k h = absurd (h refl)
  raise_violations-nonempty (v ∷ vs) k h = refl

  register-stores :
      IsUsers s.users
      → violations input ≡ []
      → any (has_email address) s.users ≡ false
      → register postgres_user_repo input s ≡ stores
  unfolding register raise_violations user
  register-stores users fine new =
      rw
        (
          fine,
          get_by_email_lem address s users,
          normalize_email-normalize_email input.email,
          find-none (has_email address) s.users new,
        )
        refl

  register-duplicate :
      IsUsers s.users
      → violations input ≡ []
      → any (has_email address) s.users ≡ true
      → register postgres_user_repo input s ≡ (raise duplicate_email, s)
  unfolding register raise_violations
  register-duplicate users fine taken =
      rw
        (
          fine,
          get_by_email_lem address s users,
          normalize_email-normalize_email input.email,
          (find-any (has_email address) s.users taken).1,
        )
        refl

  register-refuses :
      violations input ≢ []
      → register postgres_user_repo input s ≡ (raise (validation_app_error (violations input)), s)
  unfolding register
  register-refuses h = raise_violations-nonempty (violations input) _ h

  empty-cases : (vs : List FieldViolation) → (vs ≡ []) ⊎ (vs ≢ [])
  empty-cases [] = inl refl
  empty-cases (v ∷ vs) = inr λ e. cons≢nil e

  -- On a table of users whose ids and normalized addresses are unique, a registration that returns
  -- had no violations and a new address, and added exactly the row of an active user with the
  -- normalized address and the hash of the password, and one event; one that raises reports all
  -- violations, or the duplicate address, without any change, or an unknown error if the new id is
  -- taken, with no change but the draws and the call of the hasher.
  pub register_lem : IsUsers s.users → Registers (register postgres_user_repo input s)
  register_lem users = elim (empty-cases (violations input)) [
    | inl fine ↦ elim (Bool-cases (any (has_email address) s.users)) [
      | inl taken ↦ rw (register-duplicate users fine taken) (inr (inl (taken, refl, refl)))
      | inr new ↦ rw (register-stores users fine new) (stores-Registers users fine new)
    ]
    | inr some_wrong ↦ rw (register-refuses some_wrong) (inl (some_wrong, refl, refl))
  ]

  -- On a table of users whose ids and normalized addresses are unique, a registration returns the
  -- new id and the normalized address, and adds exactly the row and the event, if the input has no
  -- violations, the address is new, and the drawn id is not taken.
  pub register-returns :
      IsUsers s.users
      → violations input ≡ []
      → any (has_email address) s.users ≡ false
      → any (has_id registered_row.id) s.users ≡ false
      → register postgres_user_repo input s
        ≡ (ok (record { id = registered_row.id; email = address }), registered)
  unfolding insert_user
  register-returns users fine new fresh = rw (register-stores users fine new, fresh, new) refl
