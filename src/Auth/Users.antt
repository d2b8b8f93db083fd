-- ===== src/Auth/Users.antt =====
-- authentication/credentials/users/user.py, identity/models.py, and the repository of users,
-- storage_postgres/identity/repository.py.
pub mod Table
pub mod Reads
use trutina.Base.{
  ◌≡◌, Bool, true, false, Option, none, some, List, [], ◌∷◌, ◌++◌, if◌then◌else◌, Text, text, same,
  select, any, map, ℕ,
}
use trutina.Platform.{Platform}
use trutina.Errors.{
  Error, string, app_error, not_found, unknown, duplicate_user_email, unknown_user,
}
use trutina.Store.{Done, ok, raise, Result}
use trutina.Auth.Email.{normalize_email}
use trutina.Auth.State.{
  Runtime, UserRow, AuthState, Auth, pure, throw, gets, draw, scalar_one_or_none, ◌>>=◌, ◌>>◌,
}

pub record User : Type 0 where
  pub id : Text
  pub email : Text
  pub password_hash : Text
  pub is_active : Bool
  pub created_at : ℕ

pub record Identity : Type 0 where
  pub subject_id : Text

pub record AccessState : Type 0 where
  pub is_active : Bool

-- The contract `UserRepo`.
pub record UserRepo : Type 0 where
  pub create : User → Auth Done
  pub get_by_id : Text → Auth (Option User)
  pub get_by_email : Text → Auth (Option User)
  pub update_password_hash : Text → Text → Auth Done
  pub set_active : Text → Bool → Auth Done

-- The unique constraints of the table `users`.
pub data UserConstraint : Type 0 where
  pk_users uq_users_email : UserConstraint

-- The error that a duplicate of an address is reported by, without the address.
unfoldable pub duplicate_email : Error
duplicate_email = app_error (record {
  code = duplicate_user_email;
  context = ("resource", string (text "user")) ∷ ("field", string (text "email")) ∷ [];
})

-- `_on_duplicate`
unfoldable pub on_duplicate : UserConstraint → Error
unfolding duplicate_email unknown
on_duplicate uq_users_email = duplicate_email
on_duplicate pk_users = unknown

abbrev pub has_id : Text → UserRow → Bool
has_id id row = same row.id id

abbrev pub has_email : Text → UserRow → Bool
has_email email row = same row.email email

-- INSERT into `users`, as the handler of `IntegrityError` reports it.
unfoldable pub insert_user : UserRow → Auth Done
unfolding on_duplicate
insert_user row s =
    if any (has_id row.id) s.users
    then (raise (on_duplicate pk_users), s)
    else if any (has_email row.email) s.users
    then (raise (on_duplicate uq_users_email), s)
    else (ok tt, record s { users = s.users ++ row ∷ [] })

-- The rows with the rows of an id changed.
unfoldable pub update_rows : Text → (UserRow → UserRow) → List UserRow → List UserRow
update_rows id f [] = []
update_rows id f (row ∷ rows) = (if has_id id row then f row else row) ∷ update_rows id f rows

-- A row that does not exist is reported by the id.
unfoldable pub or_unknown_user : Text → Option Text → Auth Done
unfolding not_found
or_unknown_user id (some found) = pure tt
or_unknown_user id none = throw (not_found unknown_user (text "user") (string id))

-- `_update_one`: UPDATE … RETURNING id.
unfoldable pub update_one : Text → (UserRow → UserRow) → Auth Done
unfolding update_rows or_unknown_user scalar_one_or_none
update_one id f = do
  rows ← gets (λ s. select (has_id id) s.users)
  found ← scalar_one_or_none (map (λ row. row.id) rows)
  (λ s. (ok tt, record s { users = update_rows id f s.users }))
  or_unknown_user id found

module _ ⦃u : Platform⦄ where
  -- The construction of a `User`, with its validator `_normalize_email`.
  unfoldable pub user : Text → Text → Text → Bool → ℕ → User
  unfolding normalize_email
  user id email password_hash is_active created_at = record {
    id = id;
    email = normalize_email email;
    password_hash = password_hash;
    is_active = is_active;
    created_at = created_at;
  }

  -- `_to_domain`
  unfoldable pub to_domain : UserRow → User
  unfolding user
  to_domain row = user row.id row.email row.password_hash row.is_active row.created_at

  -- `self._to_domain(model) if model is not None else None`
  abbrev pub to_domain? : Option UserRow → Option User
  to_domain? none = none
  to_domain? (some row) = some (to_domain row)

  -- `PostgresUserRepo`, on texts without U+0000, which PostgreSQL refuses.
  abbrev pub postgres_user_repo : ⦃r : Runtime⦄ → UserRepo
  postgres_user_repo ⦃r⦄ = record {
    create = λ a. do
      created_at ← draw r.database_now
      insert_user (record {
        id = a.id;
        email = a.email;
        password_hash = a.password_hash;
        is_active = a.is_active;
        created_at = created_at;
      });
    get_by_id = λ id. do
      rows ← gets (λ s. select (has_id id) s.users)
      row ← scalar_one_or_none rows
      pure (to_domain? row);
    get_by_email = λ email. do
      rows ← gets (λ s. select (has_email (normalize_email email)) s.users)
      row ← scalar_one_or_none rows
      pure (to_domain? row);
    update_password_hash =
        λ id password_hash. update_one id (λ row. record row { password_hash = password_hash });
    set_active = λ id is_active. update_one id (λ row. record row { is_active = is_active });
  }
