-- ===== src/Api/Routes.antt =====
-- What a route sends back: its status and body, or the response of the handler of the exception that
-- it raises.
use trutina.Base.{ℕ, Text, text}
use trutina.Store.{World, Result, ok, raise, M}
use trutina.Api.Handlers.{Str, Request, Response, FailureLog, handle}

-- PRE_AUTH_ACTOR
abbrev pub pre_auth_actor : Text
pre_auth_actor = text "system:pre-auth:api"

-- The status that a router declares, with the body.
pub record Answer (A : Type 0) : Type 0 where
  pub status_code : ℕ
  pub body : A

-- `status_code=status.HTTP_201_CREATED`
abbrev pub created : {A : Type 0} → A → Answer A
created body = record { status_code = 201; body = body }

-- The status of a router that declares none.
abbrev pub answered : {A : Type 0} → A → Answer A
answered body = record { status_code = 200; body = body }

pub data Reply (A : Type 0) : Type 0 where
  success : ℕ → A → Reply A
  failure : Response → FailureLog → Reply A

module _ ⦃z : Str⦄ {A : Type 0} where
  abbrev pub reply : Request → Result (Answer A) × World → Reply A × World
  reply request (ok answer, w) = (success answer.status_code answer.body, w)
  reply request (raise e, w) = (failure (handle request e).0 (handle request e).1, w)

  abbrev pub serve : Request → M (Answer A) → World → Reply A × World
  serve request route w = reply request (route w)
