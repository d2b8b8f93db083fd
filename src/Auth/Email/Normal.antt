-- ===== src/Auth/Email/Normal.antt =====
-- `normalize_email` is idempotent: an address that a user record stores is found again.
use trutina.Base.{
  ℕ, ◌≡◌, ◌≢◌, refl, sym, ap, ap₂, ◌∙◌, true, false, [], ◌∷◌, ◌++◌, inl, inr, Text, All, Bool-cases,
}
use mathlib.Core.List.{append_assoc, cons≢nil}
use trutina.Platform.{Platform, IsVisible}
use trutina.Rule.{lstrip, cons_unless_blank, rstrip, strip, casefold}
use trutina.Rule.Clean.{strip-strip}
use trutina.Auth.Email.{normalize_email}

module _ ⦃u : Platform⦄ where
  casefold-append : (s t : Text) → casefold (s ++ t) ≡ casefold s ++ casefold t
  unfolding casefold
  casefold-append [] t = refl
  casefold-append (c ∷ s) t =
      ap (◌++◌ (u.fold c)) (casefold-append s t)
      ∙ sym (append_assoc (u.fold c) (casefold s) (casefold t))

  casefold_of_folded : (s : Text) → All (λ d. u.fold d ≡ d ∷ []) s → casefold s ≡ s
  unfolding casefold
  casefold_of_folded [] h = refl
  casefold_of_folded (c ∷ s) h = rw h.0 (ap (◌∷◌ c) (casefold_of_folded s h.1))

  pub casefold-casefold : (s : Text) → casefold (casefold s) ≡ casefold s
  unfolding casefold
  casefold-casefold [] = refl
  casefold-casefold (c ∷ s) =
      casefold-append (u.fold c) (casefold s)
      ∙ ap₂ ◌++◌ (casefold_of_folded (u.fold c) (u.fold_fold c)) (casefold-casefold s)

  cons_unless_blank-visible :
      (c : ℕ) (t : Text) → u.is_space c ≡ false → cons_unless_blank c t ≡ c ∷ t
  unfolding cons_unless_blank
  cons_unless_blank-visible c [] h = rw h
  cons_unless_blank-visible c (d ∷ t) h = refl

  cons_unless_blank-filled : (c : ℕ) (t : Text) → t ≢ [] → cons_unless_blank c t ≡ c ∷ t
  unfolding cons_unless_blank
  cons_unless_blank-filled c [] h = absurd (h refl)
  cons_unless_blank-filled c (d ∷ t) h = refl

  lstrip-visible : (s t : Text) → IsVisible u.is_space s → lstrip (s ++ t) ≡ s ++ t
  unfolding lstrip
  lstrip-visible [] t h = absurd (h.0 refl)
  lstrip-visible (c ∷ s) t h = rw h.1.0

  rstrip-visible :
      (s t : Text) → All (λ d. u.is_space d ≡ false) s → rstrip (s ++ t) ≡ s ++ rstrip t
  unfolding rstrip
  rstrip-visible [] t h = refl
  rstrip-visible (c ∷ s) t h =
      ap (cons_unless_blank c) (rstrip-visible s t h.1)
      ∙ cons_unless_blank-visible c (s ++ rstrip t) h.0

  append-filled : (s t : Text) → s ≢ [] → (s ++ t) ≢ []
  append-filled [] t h = absurd (h refl)
  append-filled (c ∷ s) t h = λ e. cons≢nil e

  fold-filled : (c : ℕ) → u.fold c ≢ []
  fold-filled c = elim (Bool-cases (u.is_space c)) [
    | inl blank ↦ λ e. cons≢nil (sym (u.fold_space c blank) ∙ e)
    | inr visible ↦ (u.fold_visible c visible).0
  ]

  lstrip-casefold : (s : Text) → lstrip (casefold s) ≡ casefold (lstrip s)
  unfolding lstrip casefold
  lstrip-casefold [] = refl
  lstrip-casefold (c ∷ s) = elim (Bool-cases (u.is_space c)) [
    | inl blank ↦ rw (u.fold_space c blank) (rw blank (lstrip-casefold s))
    | inr visible ↦ rw visible (lstrip-visible (u.fold c) (casefold s) (u.fold_visible c visible))
  ]

  -- Folding what is left of a text behind a blank that may end it.
  casefold-cons_unless_blank :
      (c : ℕ) (t : Text)
      → u.is_space c ≡ true
      → cons_unless_blank c (casefold t) ≡ casefold (cons_unless_blank c t)
  unfolding cons_unless_blank casefold
  casefold-cons_unless_blank c [] blank = rw blank
  casefold-cons_unless_blank c (d ∷ t) blank =
      cons_unless_blank-filled c (u.fold d ++ casefold t)
        (append-filled (u.fold d) (casefold t) (fold-filled d))
      ∙ sym (ap (λ f. f ++ (u.fold d ++ casefold t)) (u.fold_space c blank))

  rstrip-casefold : (s : Text) → rstrip (casefold s) ≡ casefold (rstrip s)
  unfolding rstrip casefold
  rstrip-casefold [] = refl
  rstrip-casefold (c ∷ s) = elim (Bool-cases (u.is_space c)) [
    | inl blank ↦
        ap (λ f. rstrip (f ++ casefold s)) (u.fold_space c blank)
        ∙ ap (cons_unless_blank c) (rstrip-casefold s)
        ∙ casefold-cons_unless_blank c (rstrip s) blank
    | inr visible ↦
        rstrip-visible (u.fold c) (casefold s) (u.fold_visible c visible).1
        ∙ ap (◌++◌ (u.fold c)) (rstrip-casefold s)
        ∙ ap casefold (sym (cons_unless_blank-visible c (rstrip s) visible))
  ]

  strip-casefold : (s : Text) → strip (casefold s) ≡ casefold (strip s)
  unfolding strip
  strip-casefold s = ap rstrip (lstrip-casefold s) ∙ rstrip-casefold (lstrip s)

  -- x
  pub normalize_email-normalize_email :
      (email : Text) → normalize_email (normalize_email email) ≡ normalize_email email
  unfolding normalize_email
  normalize_email-normalize_email email =
      ap casefold (strip-casefold (strip email) ∙ ap casefold (strip-strip email))
      ∙ casefold-casefold (strip email)
