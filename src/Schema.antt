-- ===== src/Schema.antt =====
-- How a Pydantic model is built: every field is checked, the failures of all fields are reported
-- together, and a model validator runs only when all fields passed.
use trutina.Base.{
  ◌≡◌, refl, arith, List, [], ◌∷◌, ◌++◌, if◌then◌else◌, String, ltb, length, Text, ℕ,
}
use trutina.Errors.{ErrorCode, SchemaError, Value, string, string_too_short, string_too_long}
use trutina.Errors.Codes.{code_text}

pub data Check {ℓ} (A : Type ℓ) : Type ℓ where
  pass : A → Check A
  fail : List SchemaError → Check A

-- One failure, at a field.
abbrev pub reject_type {ℓ} : {A : Type ℓ} → Text → String → Value → Check A
reject_type kind loc input = fail (record { kind = kind; loc = loc; input = input } ∷ [])

-- A failure whose type is an error code.
abbrev pub reject {ℓ} : {A : Type ℓ} → ErrorCode → String → Value → Check A
reject code loc input = reject_type (code_text code) loc input

infixl 5 ◌>>=◌
abbrev pub ◌>>=◌ {ℓ κ} : {A : Type ℓ} {B : Type κ} → Check A → (A → Check B) → Check B
pass a >>= f = f a
fail e >>= f = fail e

pub >>=-pass {ℓ κ} :
    {A : Type ℓ} {B : Type κ} (c : Check A) (f : A → Check B) {b : B}
    → (c >>= f) ≡ pass b
    → (a : A) × (c ≡ pass a) × (f a ≡ pass b)
>>=-pass (pass a) f h = (a, refl, h)
>>=-pass (fail e) f h = cc

-- A comprehension of constructions: the first that fails raises.
abbrev pub pass_all {ℓ κ} : {A : Type ℓ} {B : Type κ} → (A → Check B) → List A → Check (List B)
pass_all f [] = pass []
pass_all f (a ∷ xs) = f a >>= λ b. pass_all f xs >>= λ rest. pass (b ∷ rest)

pub pass_all-cons {ℓ κ} :
    {A : Type ℓ} {B : Type κ} (f : A → Check B) (a : A) (xs : List A) {ys : List B}
    → pass_all f (a ∷ xs) ≡ pass ys
    → (b : B) × (rest : List B) × (f a ≡ pass b) × (pass_all f xs ≡ pass rest) × (ys ≡ b ∷ rest)
pass_all-cons {A = A} {B = B} f a xs {ys} h = first (f a) (pass_all f xs) refl refl h
  where
    first :
        (c : Check B) (d : Check (List B))
        → f a ≡ c
        → pass_all f xs ≡ d
        → (c >>= λ b. d >>= λ rest. pass (b ∷ rest)) ≡ pass ys
        → (b : B) × (rest : List B) × (f a ≡ pass b) × (pass_all f xs ≡ pass rest) × (ys ≡ b ∷ rest)
    first (pass b) (pass rest) e k h = (b, rest, e, k, cc)
    first (pass b) (fail x) e k h = cc
    first (fail x) d e k h = cc

-- Two fields, with the failures of both.
abbrev pub both {ℓ κ} : {A : Type ℓ} {B : Type κ} → Check A → Check B → Check (A × B)
both (pass a) (pass b) = pass (a, b)
both (pass a) (fail f) = fail f
both (fail e) (pass b) = fail e
both (fail e) (fail f) = fail (e ++ f)

-- `Field(min_length=low, max_length=high)` on a string.
unfoldable pub bounded_text : ℕ → ℕ → String → Text → Check Text
bounded_text low high loc value =
    if ltb high (length value)
    then reject string_too_long loc (string value)
    else if ltb (length value) low
    then reject string_too_short loc (string value)
    else pass value

pub both-pass {ℓ κ} :
    {A : Type ℓ} {B : Type κ} (x : Check A) (y : Check B) {a : A} {b : B}
    → both x y ≡ pass (a, b)
    → (x ≡ pass a) × (y ≡ pass b)
both-pass (pass a) (pass b) h = ground arith
both-pass (pass a) (fail f) h = cc
both-pass (fail e) (pass b) h = cc
both-pass (fail e) (fail f) h = cc
