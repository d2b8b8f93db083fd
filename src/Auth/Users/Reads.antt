-- ===== src/Auth/Users/Reads.antt =====
-- What the repository of users reads on a table of users, and that it finds the row it updates.
use trutina.Base.{
  ◌≡◌, refl, ap, Bool, true, false, Option, none, some, List, [], ◌∷◌, Text, subst, ◌⊎◌, inl, inr,
  Bool-cases, find, map, to_list, select-find, All,
}
use trutina.Platform.{Platform}
use trutina.Store.{ok}
use trutina.Auth.Email.{normalize_email}
use trutina.Auth.State.{Runtime, UserRow, AuthState, scalar_one_or_none}
use trutina.Auth.Users.{
  has_id, has_email, update_rows, update_one, or_unknown_user, to_domain, user, to_domain?,
  postgres_user_repo,
}
use trutina.Auth.Users.Table.{IsUsers, IsNormal, id_of, email_of}

scalar_of_option :
    {A : Type 0} (o : Option A) (s : AuthState) → scalar_one_or_none (to_list o) s ≡ (ok o, s)
unfolding scalar_one_or_none
scalar_of_option none s = refl
scalar_of_option (some a) s = refl

some-inj : {A : Type 0} {a b : A} → some a ≡ some b → a ≡ b
some-inj e = cc

map-to_list :
    {A B : Type 0} (f : A → B) (o : Option A)
    → map f (to_list o) ≡ to_list (elim o [ none ↦ none | some a ↦ some (f a) ])
map-to_list f none = refl
map-to_list f (some a) = refl

pub find-All :
    {A : Type 0} (P : A → Type 0) (p : A → Bool) (xs : List A) (x : A)
    → All P xs
    → find p xs ≡ some x
    → P x × (p x ≡ true)
find-All P p [] x h e = cc
find-All P p (y ∷ xs) x h e = elim (Bool-cases (p y)) [
  | inl here ↦
      let first : y ≡ x = some-inj (rw here at e) in
      subst (λ z. P z × (p z ≡ true)) first (h.0, here)
  | inr later ↦ find-All P p xs x h.1 (rw later at e)
]

-- The row of an id of a row that is there.
pub find_other :
    {A : Type 0} (p q : A → Bool) (xs : List A) (x : A)
    → find p xs ≡ some x
    → q x ≡ true
    → (y : A) × (find q xs ≡ some y)
find_other p q [] x e h = cc
find_other p q (y ∷ xs) x e h = elim (Bool-cases (q y)) [
  | inl here ↦ (y, rw here refl)
  | inr later ↦
      let (z, found) = find_other p q xs x (behind (Bool-cases (p y)) later) h in
      (z, rw later found)
]
  where
    behind : (p y ≡ true) ⊎ (p y ≡ false) → q y ≡ false → find p xs ≡ some x
    behind (inl first) later = let same : y ≡ x = some-inj (rw first at e) in absurd (cc)
    behind (inr other) later = rw other at e

module _ ⦃u : Platform⦄ ⦃r : Runtime⦄ where
  to_domain_of_normal :
      (row : UserRow)
      → IsNormal row
      → to_domain row ≡ record {
        id = row.id;
        email = row.email;
        password_hash = row.password_hash;
        is_active = row.is_active;
        created_at = row.created_at;
      }
  unfolding to_domain user
  to_domain_of_normal row h =
      ap
        (λ e. record {
          id = row.id;
          email = e;
          password_hash = row.password_hash;
          is_active = row.is_active;
          created_at = row.created_at;
        })
        h

  pub get_by_email_lem :
      (email : Text) (s : AuthState)
      → IsUsers s.users
      → postgres_user_repo.get_by_email email s
        ≡ (ok (to_domain? (find (has_email (normalize_email email)) s.users)), s)
  get_by_email_lem email s h =
      rw
        (
          select-find email_of (normalize_email email) s.users h.emails,
          scalar_of_option (find (has_email (normalize_email email)) s.users) s,
        )
        refl

  pub update_one_lem :
      (id : Text) (f : UserRow → UserRow) (s : AuthState) (row : UserRow)
      → IsUsers s.users
      → find (has_id id) s.users ≡ some row
      → update_one id f s ≡ (ok tt, record s { users = update_rows id f s.users })
  unfolding update_one or_unknown_user scalar_one_or_none
  update_one_lem id f s row h found = rw (select-find id_of id s.users h.ids) (rw found refl)
