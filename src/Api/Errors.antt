-- ===== src/Api/Errors.antt =====
-- lib/errors.js of the API: the errors that the services throw, by their class, and what a service
-- call does in the end. The texts for the customer are left out.
use bevoac_dev.Prelude.{Bool, ◌⊎◌, inl, inr, ◌≡◌, refl, List}
use bevoac_dev.Prelude.Text.{Text}
use bevoac_dev.Api.Billing.{BillingError}

-- An error of the database: whether its code is 23505, a violation of a unique constraint, and the name
-- of the constraint.
pub record DbError : Type 0 where
  pub is_unique_violation : Bool
  pub constraint : Text

pub data ApiError : Type 0 where
  -- `ValidationError`, by the field that it is about
  validation_error : Text → ApiError
  -- `ForbiddenError`, with the items that its details list
  forbidden : List Text → ApiError
  -- `IdempotencyConflictError`, with the key
  idempotency_conflict : Text → ApiError
  -- `ConflictError` with the code OUTBOX_EVENT_CONFLICT
  outbox_event_conflict : ApiError
  -- an error of billing-service.js
  billing_refused : BillingError → ApiError
  -- a plain `Error`
  internal_error : Text → ApiError
  database_error : DbError → ApiError

pub data ApiResult {ℓ} (A : Type ℓ) : Type ℓ where
  returned : A → ApiResult A
  failed : ApiError → ApiResult A

-- what follows a call that may throw
unfoldable pub and_then {ℓ κ} :
    {A : Type ℓ} {B : Type κ} → ApiResult A → (A → ApiResult B) → ApiResult B
and_then (returned a) f = f a
and_then (failed e) f = failed e

pub ApiResult-cases {ℓ} :
    {A : Type ℓ} (r : ApiResult A)
    → ((a : A) × (r ≡ returned a)) ⊎ ((e : ApiError) × (r ≡ failed e))
ApiResult-cases (returned a) = inl (a, refl)
ApiResult-cases (failed e) = inr (e, refl)
