-- ===== src/Worker/Processor/Environment.antt =====
-- The message, the configuration, and the answers of the environment.
use bevoac_dev.Prelude.{
  ℕ, Bool, true, false, Option, none, some, List, [], ◌∷◌, any, leb, ◌==◌, if◌then◌else◌,
}
use bevoac_dev.Prelude.Text.{Text, text, text_eq, mem_text, to_lower}
use bevoac_dev.Worker.Errors.{Outcome, ok, raised, Thrown, Report}
use bevoac_dev.Worker.Store.Transaction.{Connection, plain_error}
use bevoac_dev.Worker.Store.Results.{ResultCodec, Limits}

-- `limits` of the message: `resourceLimit` may be absent, or null
pub record MessageLimits : Type 0 where
  pub resource_limit : Option (Option ℕ)
  pub plan_code : Option Text

-- a body that the contract accepts
pub record Body : Type 0 where
  pub scan_id : ℕ
  pub tenant_id : ℕ
  pub cloud_provider : Text
  pub modules : List Text
  pub microsoft_tenant_id : Option Text
  pub limits : MessageLimits

-- The schema validator (ajv over contracts/scan-request.schema.json) accepts a body, or refuses it
-- with errors; `identity` is what `safeMessageIdentity` reads from a refused body, if its two ids are
-- UUIDs, and `errors` is the text of the compacted errors.
pub data Content : Type 0 where
  valid : Body → Content
  invalid : (identity : Option (ℕ × ℕ)) (errors : Text) → Content

pub record Message : Type 0 where
  pub message_id : Option Text
  pub delivery_count : Option ℕ
  pub content : Content

pub record Config : Type 0 where
  pub codec : ResultCodec
  pub limits : Limits
  pub worker_name : Text
  pub max_delivery_count : Option ℕ
  pub plan_resource_limits : List (Text × Option ℕ)
  pub has_client_secret : Bool
  pub preflight_modules : List Text

-- How one call of scan-store.js goes: the time of its transaction, and its connection.
pub record Moment : Type 0 where
  pub now : ℕ
  pub connection : Connection

-- The answers: a fresh UUID, the transactions of the main path and of the `catch` block, Azure's
-- resource count, the audit, and whether each call of the receiver throws.
pub record Answers : Type 0 where
  pub attempt_id : ℕ
  pub at_begin : Moment
  pub at_preflight : Moment
  pub at_close : Moment
  pub at_recovery : Moment
  pub resource_count : Outcome ℕ
  pub audit : Outcome Report
  pub receiver_main : Option Thrown
  pub receiver_recovery : Option Thrown
  pub receiver_last : Option Thrown

-- an own property of an object with string keys
unfoldable pub property : Text → List (Text × Option ℕ) → Option (Option ℕ)
property key [] = none
property key ((k, v) ∷ rest) = if text_eq k key then some v else property key rest

-- the limit of the plan, if the plan is named and known
unfoldable pub plan_limit : Config → Option Text → Option ℕ
unfolding property
plan_limit cfg none = none
plan_limit cfg (some []) = none
plan_limit cfg (some (c ∷ plan)) = elim (property (c ∷ plan) cfg.plan_resource_limits) [
  | none ↦ none
  | some limit ↦ limit
]

unfoldable pub resolve_resource_limit : Config → MessageLimits → Option ℕ
unfolding plan_limit
resolve_resource_limit cfg limits = elim limits.resource_limit [
  | some limit ↦ limit
  | none ↦ plan_limit cfg limits.plan_code
]

-- The count of deliveries, from 1.
unfoldable pub delivery_attempt : Option ℕ → ℕ
delivery_attempt none = 1
delivery_attempt (some n) = if leb 1 n then n else 1

-- `config.serviceBus.maxDeliveryCount || 5`
abbrev pub delivery_limit : Option ℕ → ℕ
delivery_limit none = 5
delivery_limit (some n) = if n == 0 then 5 else n

unfoldable pub retry_exhausted : Option ℕ → Config → Bool
unfolding delivery_attempt
retry_exhausted count cfg = leb (delivery_limit cfg.max_delivery_count) (delivery_attempt count)

-- lib/resource-preflight.js `hasInfraModules`
unfoldable pub has_infra_modules : Config → List Text → Bool
unfolding to_lower mem_text
has_infra_modules cfg modules = any (λ m. mem_text (to_lower m) cfg.preflight_modules) modules

-- lib/azure-credentials.js: no tenant, no credential; a tenant without the application's secret throws
unfoldable pub build_cross_tenant_credential : Config → Option Text → Outcome Bool
build_cross_tenant_credential cfg none = ok false
build_cross_tenant_credential cfg (some []) = ok false
build_cross_tenant_credential cfg (some (c ∷ tenant)) =
    if cfg.has_client_secret
    then ok true
    else raised (
        plain_error none
          (text "Missing MICROSOFT_CLIENT_ID or MICROSOFT_CLIENT_SECRET for cross-tenant audit."))
