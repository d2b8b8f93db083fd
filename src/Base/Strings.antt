-- ===== src/Base/Strings.antt =====
-- A Python `str` as the list of its code points.
use Prim.Native.Nat.{ℕ}
use Prim.Native.Char.{code}
use Prim.Native.String.{String}
use mathlib.Core.List.{List, [], ◌∷◌, cons≢nil, head-eq_of_cons-eq, tail-eq_of_cons-eq}
use mathlib.Core.Bool.{Bool}
use mathlib.Core.Path.{◌≡◌, refl, sym}
use native.Mathlib.Decide.{ℕ_discrete}
use trutina.Base.Tests.{holds}

abbrev pub Text : Type 0
Text = List ℕ

abbrev pub text : String → Text
text String.[] = []
text (String.◌∷◌ c s) = code c ∷ text s

-- The two comparisons of `Text-discrete` at a character and at the rest.
decide_cons :
    {a b : ℕ} {s t : Text} → Dec (a ≡ b) → Dec (s ≡ t) → Dec (◌≡◌ {A = Text} (a ∷ s) (b ∷ t))
decide_cons (yes p) (yes q) = yes (λ i. p i ∷ q i)
decide_cons (yes p) (no n) = no (λ e. n (tail-eq_of_cons-eq e))
decide_cons (no n) _ = no (λ e. n (head-eq_of_cons-eq e))

unfoldable pub Text-discrete : Discrete Text
unfolding decide_cons ℕ_discrete
Text-discrete [] [] = yes refl
Text-discrete [] (b ∷ t) = no (λ e. cons≢nil (sym e))
Text-discrete (a ∷ s) [] = no (λ e. cons≢nil e)
Text-discrete (a ∷ s) (b ∷ t) = decide_cons (ℕ_discrete a b) (Text-discrete s t)

-- `a == b` on two strings.
abbrev pub same : Text → Text → Bool
same a b = holds (Text-discrete a b)
