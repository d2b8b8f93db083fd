-- ===== src/Auth/Email/Shape.antt =====
-- The shape that `is_well_formed_email` accepts, against the form local@domain.
use trutina.Base.{
  ℕ, ◌≤◌, ◌≡◌, ◌≢◌, ◌↔◌, refl, subst, sym, ap, true, false, ◌||◌, [], ◌∷◌, ◌++◌, arith, inl, inr,
  Bool, Bool-cases, Text, any, length, ltb, ◌==◌, ==_iff,
}
use mathlib.Core.List.{cons≢nil}
use trutina.Platform.{Platform}
use trutina.Auth.Email.{max_email_length, is_empty, partition, contains, is_well_formed_email}

-- What is in front of a separator and behind it puts the text together again.
partition-found :
    (c : ℕ) (s : Text)
    → (partition c s).found ≡ true
    → (s ≡ (partition c s).before ++ c ∷ (partition c s).after)
      × (contains c (partition c s).before ≡ false)
unfolding partition contains
partition-found c [] h = cc
partition-found c (d ∷ s) h = elim (Bool-cases (d == c)) [
  | inl here ↦ rw here (ap (λ x. x ∷ s) ((==_iff d c).0 here), refl)
  | inr later ↦
      let (whole, clear) = partition-found c s (rw later at h) in
      rw later (ap (◌∷◌ d) whole, rw later clear)
]

-- A text that is put together around the first separator is taken apart there.
partition-append :
    (c : ℕ) (s t : Text)
    → contains c s ≡ false
    → partition c (s ++ c ∷ t) ≡ record { before = s; found = true; after = t }
unfolding partition contains
partition-append c [] t h = ground arith
partition-append c (d ∷ s) t h = elim (Bool-cases (d == c)) [
  | inl here ↦ absurd (ground arith)
  | inr later ↦ rw (later, partition-append c s t (rw later at h)) refl
]

is_empty-false : (s : Text) → (is_empty s ≡ false) ↔ (s ≢ [])
unfolding is_empty
is_empty-false [] = (λ h. cc, λ h. absurd (h refl))
is_empty-false (c ∷ s) = (λ h e. cons≢nil e, λ h. refl)

module _ ⦃u : Platform⦄ (is_other : ℕ → Bool) where
  -- local@domain, with one `@`, in at most 254 characters, without white space and control
  -- characters.
  pub record IsAddress (email : Text) : Type 0 where
    pub local : Text
    pub domain : Text
    pub whole : email ≡ local ++ 64 ∷ domain
    pub local_filled : local ≢ []
    pub domain_filled : domain ≢ []
    pub local_clear : contains 64 local ≡ false
    pub domain_clear : contains 64 domain ≡ false
    pub fits : length email ≤ max_email_length
    pub visible : any (λ c. u.is_space c || is_other c) email ≡ false

  -- The tests of `is_well_formed_email`, on the parts of the address.
  well_formed-inv :
      (email : Text)
      → is_well_formed_email is_other email ≡ true
      → (length email ≤ max_email_length)
        × (any (λ c. u.is_space c || is_other c) email ≡ false)
        × ((partition 64 email).found ≡ true)
        × (is_empty (partition 64 email).before ≡ false)
        × (is_empty (partition 64 email).after ≡ false)
        × (contains 64 (partition 64 email).after ≡ false)
  unfolding is_well_formed_email
  well_formed-inv email h = ground arith

  well_formed_of_parts :
      (local domain : Text)
      → is_empty local ≡ false
      → is_empty domain ≡ false
      → contains 64 local ≡ false
      → contains 64 domain ≡ false
      → length (local ++ 64 ∷ domain) ≤ max_email_length
      → any (λ c. u.is_space c || is_other c) (local ++ 64 ∷ domain) ≡ false
      → is_well_formed_email is_other (local ++ 64 ∷ domain) ≡ true
  unfolding is_well_formed_email
  well_formed_of_parts local domain l d lc dc fits visible =
      rw (partition-append 64 local domain lc, visible, l, d, dc, filled local, fine) refl
    where
      filled : (s : Text) → is_empty (s ++ 64 ∷ domain) ≡ false
      filled [] = refl
      filled (c ∷ s) = refl

      fine : ltb max_email_length (length (local ++ 64 ∷ domain)) ≡ false
      fine = ground arith

  -- is_well_formed_email holds exactly of the texts local@domain with one @, both parts filled, in
  -- at most 254 characters, none of them white space or of a category C.
  pub is_well_formed_email-IsAddress :
      (email : Text) → (is_well_formed_email is_other email ≡ true) ↔ IsAddress email
  is_well_formed_email-IsAddress email = (parts, test)
    where
      parts : is_well_formed_email is_other email ≡ true → IsAddress email
      parts h =
          let (fits, visible, found, local, domain, clear) = well_formed-inv email h in
          let (whole, first) = partition-found 64 email found in
          record {
            local = (partition 64 email).before;
            domain = (partition 64 email).after;
            whole = whole;
            local_filled = (is_empty-false (partition 64 email).before).0 local;
            domain_filled = (is_empty-false (partition 64 email).after).0 domain;
            local_clear = first;
            domain_clear = clear;
            fits = fits;
            visible = visible;
          }

      test : IsAddress email → is_well_formed_email is_other email ≡ true
      test a =
          subst (λ e. is_well_formed_email is_other e ≡ true) (sym a.whole)
            (well_formed_of_parts a.local a.domain ((is_empty-false a.local).1 a.local_filled)
              ((is_empty-false a.domain).1 a.domain_filled) a.local_clear a.domain_clear
              (subst (λ e. length e ≤ max_email_length) a.whole a.fits)
              (subst (λ e. any (λ c. u.is_space c || is_other c) e ≡ false) a.whole a.visible))
