-- ===== src/Api/Handlers/Codes.antt =====
-- The error codes that the translation of schema failures downgrades are recovered.
use trutina.Base.{Option, none, some, ◌≡◌, refl, true, inl, inr, Bool-cases, Text}
use trutina.Errors.{
  ErrorCode, SchemaError, violation_of, kept_code, is_pydantic_code, field_violation,
}
use trutina.Errors.Codes.{error_code}
use trutina.Api.Handlers.{Str, or_unknown_error, recover, resolve_code, resolve_violation_code}

-- A code of Pydantic is not the code of an unknown error, and is taken as it is.
resolve_code-pydantic :
    (c : ErrorCode) (value : Text) → is_pydantic_code c ≡ true → resolve_code c value ≡ c
unfolding is_pydantic_code resolve_code
resolve_code-pydantic ErrorCode.unknown_error value h = cc
resolve_code-pydantic c value h = refl

module _ ⦃z : Str⦄ where
  -- The code of a violation is the one that the type of the failure names, or that of an unknown
  -- error.
  pub resolve_violation_code-field_violation :
      (e : SchemaError) → resolve_violation_code (field_violation e) ≡ recover e.kind
  unfolding field_violation resolve_violation_code resolve_code recover
  resolve_violation_code-field_violation e = of (error_code e.kind) refl
    where
      of :
          (found : Option ErrorCode)
          → error_code e.kind ≡ found
          → resolve_violation_code (violation_of e (kept_code found)) ≡ or_unknown_error found
      of none named = rw (z.str_string e.kind, named) refl
      of (some c) named = elim (Bool-cases (is_pydantic_code c)) [
        | inl pydantic ↦ rw pydantic (resolve_code-pydantic c (z.str e.input) pydantic)
        | inr other ↦ rw (other, z.str_string e.kind, named) refl
      ]
