-- ===== src/Ledger/Reading.antt =====
-- Calls that only read: what follows one starts from the same state.
use trutina.Base.{◌≡◌, refl, sym, ap, subst, Bool, true, false, not, Option, none, some, Text}
use trutina.Platform.{Platform}
use trutina.Errors.{Error}
use trutina.Rule.{is_non_blank_actor}
use trutina.Schema.{Check, pass, fail}
use trutina.Core.Account.{Account}
use trutina.Core.Account.Service.{require_actor, or_unknown}
use trutina.Store.{World, Result, ok, raise, M, Done, resume, throw_if, uncaught, translated}

-- The call left the state as it was.
abbrev pub SameState : {A : Type 0} → World → Result A × World → Type 0
SameState w (r, w') = w' ≡ w

-- A property of a call that starts with a read: it holds of the read's error, and of what follows
-- each value that the read may return.
pub resume-SameState :
    {A B : Type 0} (P : Result B × World → Type 0) (w : World) (r : Result A × World) (f : A → M B)
    → SameState w r
    → ((e : Error) → P (raise e, w))
    → ((a : A) → r ≡ (ok a, w) → P (f a w))
    → P (resume r f)
resume-SameState P w (ok a, w') f same h k =
    subst (λ v. P (f a v)) (sym same) (k a (ap (λ v. (ok a, v)) same))
resume-SameState P w (raise e, w') f same h k = subst (λ v. P (raise e, v)) (sym same) (h e)

true_of_not : (b : Bool) → not b ≡ false → b ≡ true
true_of_not true h = refl
true_of_not false h = sym h

pub throw_if-SameState : (b : Bool) (e : Error) (w : World) → SameState w (throw_if b e w)
throw_if-SameState true e w = refl
throw_if-SameState false e w = refl

pub throw_if-ok : (b : Bool) (e : Error) (w : World) → throw_if b e w ≡ (ok tt, w) → b ≡ false
throw_if-ok true e w h =
    let clash : ◌≡◌ {A = Result Done} (raise e) (ok tt) = ap (λ p. p.0) h in absurd (cc)
throw_if-ok false e w h = refl

module _ {A : Type 0} where
  pub uncaught-SameState : (c : Check A) (w : World) → SameState w (uncaught c w)
  uncaught-SameState (pass a) w = refl
  uncaught-SameState (fail e) w = refl

  pub translated-SameState : (c : Check A) (w : World) → SameState w (translated c w)
  translated-SameState (pass a) w = refl
  translated-SameState (fail e) w = refl

  pub translated-ok : (c : Check A) (w : World) (a : A) → translated c w ≡ (ok a, w) → c ≡ pass a
  translated-ok (pass b) w a h = let same : ◌≡◌ {A = Result A} (ok b) (ok a) = ap (λ p. p.0) h in cc
  translated-ok (fail e) w a h = let clash = ap {B = Result A} (λ p. p.0) h in absurd (cc)

pub or_unknown-SameState :
    (code : Text) (found : Option Account) (w : World) → SameState w (or_unknown code found w)
unfolding or_unknown
or_unknown-SameState code none w = refl
or_unknown-SameState code (some a) w = refl

pub or_unknown-ok :
    (code : Text) (found : Option Account) (w : World) (a : Account)
    → or_unknown code found w ≡ (ok a, w)
    → found ≡ some a
unfolding or_unknown
or_unknown-ok code none w a h = let clash = ap {B = Result Account} (λ p. p.0) h in absurd (cc)
or_unknown-ok code (some b) w a h =
    let same : ◌≡◌ {A = Result Account} (ok b) (ok a) = ap (λ p. p.0) h in cc

module _ ⦃u : Platform⦄ where
  pub require_actor-SameState : (actor : Text) (w : World) → SameState w (require_actor actor w)
  unfolding require_actor
  require_actor-SameState actor w = throw_if-SameState _ _ w

  pub require_actor-ok :
      (actor : Text) (w : World)
      → require_actor actor w ≡ (ok tt, w)
      → is_non_blank_actor actor ≡ true
  unfolding require_actor
  require_actor-ok actor w h = true_of_not (is_non_blank_actor actor) (throw_if-ok _ _ w h)
