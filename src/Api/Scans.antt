-- ===== src/Api/Scans.antt =====
-- services/scan-service.js of the API: the creation of a scan. A request is authorised against the
-- customer's scopes, charged to the quota, and written with its ledger entry, its monthly snapshot, its
-- idempotency key and its outbox event in one transaction. UUIDs of scans are numbers, and Azure's are
-- texts.
pub mod Create
pub mod Traces
pub mod Runs
pub mod Created
pub mod Processed
pub mod Replayed
pub mod Lost
pub mod Fingerprints
use bevoac_dev.Prelude.{
  ℕ, ◌≤◌, Bool, true, false, ◌&&◌, ◌||◌, Option, none, some, List, [], ◌∷◌, map, any, leb, ltb,
  ◌==◌, if◌then◌else◌, length, get_or,
}
use bevoac_dev.Prelude.Text.{
  Text, text, text_eq, trim, to_lower, or_null, truthy, or_text, mem_text,
}
use bevoac_dev.Prelude.TextOrder.{sorted_set}
use bevoac_dev.Prelude.Table.{Table}
use bevoac_dev.Database.{Db, ScanRow}
use bevoac_dev.Api.Errors.{ApiError, validation_error, ApiResult, returned, failed, and_then}
use bevoac_dev.Api.Hosts.{UrlTools}
use bevoac_dev.Api.Targets.{ScopeRow, WebTargetRow}
use bevoac_dev.Api.Contract.{Descriptor, Azure}
use bevoac_dev.Api.CanonicalJson.{
  Json, null_value, string, array, object, Items, no_items, item, Members, no_members, member,
  sha256_canonical,
}
use bevoac_dev.Api.Billing.{BillingConfig, TenantRow}
use bevoac_dev.Api.Snapshots.{Snapshot}
use bevoac_dev.Api.Outbox.{EventRow}

pub data KeySource : Type 0 where
  client_supplied server_generated : KeySource

-- a row of scan_request_idempotency; its primary key is (tenant_id, idempotency_key)
pub record IdempotencyRow : Type 0 where
  pub tenant_id : ℕ
  pub idempotency_key : Text
  pub key_source : Option KeySource
  pub request_fingerprint : Option Text
  pub scan_id : ℕ
  pub created_at : ℕ

-- the tables of the service
pub record ApiDb : Type 0 where
  pub shared : Db
  pub tenants : Table TenantRow
  pub scopes : List ScopeRow
  pub web_targets : List WebTargetRow
  pub snapshots : List Snapshot
  pub idempotency : List IdempotencyRow
  pub outbox : Table EventRow

-- `requestId || scanId`
pub data RequestId : Type 0 where
  given : Text → RequestId
  of_scan : ℕ → RequestId

-- the message for the worker, less its constant `version`
pub record ScanMessage : Type 0 where
  pub scan_id : ℕ
  pub tenant_id : ℕ
  pub cloud_provider : Text
  pub scan_profile : Text
  pub modules : List Text
  pub azure : Azure
  pub plan_code : Option Text
  pub billing_units : ℕ
  pub quota_month : ℕ
  pub resource_limit : Option ℕ
  pub requested_at : ℕ
  pub request_id : RequestId

-- What the service uses of its surroundings: the catalogue, the configuration of the billing, URLs and
-- addresses, the hash of a canonical JSON value, and the JSON text of a message.
pub record Tools : Type 0 where
  pub catalog : List Descriptor
  pub billing : BillingConfig
  pub urls : UrlTools
  pub stringify_and_hash : Json → Text
  pub message_text : ScanMessage → Text

-- The request, as the route hands it over.
pub record ScanRequest : Type 0 where
  pub tenant_id : ℕ
  pub cloud_provider : Text
  pub scan_profile : Text
  pub modules : List Text
  pub azure : Azure
  pub idempotency_key : Option Text
  pub request_id : Option Text

-- The values that a call draws: UUIDs, the clock and the month.
pub record Draws : Type 0 where
  pub new_key : Text
  pub scan_id : ℕ
  pub event_id : ℕ
  pub now : ℕ
  pub quota_month : ℕ

pub record Idempotency : Type 0 where
  pub key : Text
  pub source : KeySource

-- `/\s|[\x00-\x1f\x7f]/`, the white space in ASCII
abbrev pub is_space_or_control : ℕ → Bool
is_space_or_control c = leb c 32 || c == 127

unfoldable pub resolve_idempotency : (new_key : Text) → Option Text → ApiResult Idempotency
unfolding trim
resolve_idempotency new_key input =
    let key = trim (or_text input []) in
    if truthy (some key)
    then (if ltb 255 (length key)
        then failed (validation_error (text "Idempotency-Key"))
        else if any is_space_or_control key
        then failed (validation_error (text "Idempotency-Key"))
        else returned (record { key = key; source = client_supplied }))
    else returned (record { key = new_key; source = server_generated })

abbrev pub json_text : Option Text → Json
json_text none = null_value
json_text (some t) = string t

abbrev pub json_texts : List Text → Items
json_texts [] = no_items
json_texts (t ∷ ts) = item (string t) (json_texts ts)

-- `String(item).trim().toLowerCase()`
unfoldable pub clean_name : Text → Text
unfolding trim to_lower
clean_name name = to_lower (trim name)

-- `.filter(Boolean)`
unfoldable pub non_empty : List Text → List Text
non_empty [] = []
non_empty ([] ∷ ts) = non_empty ts
non_empty ((c ∷ s) ∷ ts) = (c ∷ s) ∷ non_empty ts

-- `microsoftTenantId ? String(microsoftTenantId).toLowerCase() : null`
unfoldable pub lower_or_null : Option Text → Option Text
unfolding to_lower
lower_or_null none = none
lower_or_null (some []) = none
lower_or_null (some (c ∷ s)) = some (to_lower (c ∷ s))

unfoldable pub normalize_fingerprint_request :
    (cloud_provider scan_profile : Text) → (modules : List Text) → Azure → Json
unfolding clean_name non_empty lower_or_null sorted_set to_lower
normalize_fingerprint_request cloud_provider scan_profile modules azure = object (
    member (text "cloudProvider") (string (clean_name cloud_provider)) (
      member (text "scanProfile") (string (clean_name scan_profile)) (
        member (text "modules")
          (array (json_texts (sorted_set (non_empty (map clean_name modules)))))
          (member (text "azure")
            (object (
              member (text "targetUrl") (json_text (or_null azure.target_url)) (
                member (text "microsoftTenantId")
                  (json_text (lower_or_null azure.microsoft_tenant_id))
                  (member (text "subscriptions")
                    (array (json_texts (sorted_set (map to_lower azure.subscriptions))))
                    no_members))))
            no_members))))

module _ (tools : Tools) where
  unfoldable pub build_request_fingerprint :
      (cloud_provider scan_profile : Text) → (modules : List Text) → Azure → Text
  unfolding normalize_fingerprint_request sha256_canonical
  build_request_fingerprint cloud_provider scan_profile modules azure =
      sha256_canonical tools.stringify_and_hash
        (normalize_fingerprint_request cloud_provider scan_profile modules azure)

  unfoldable pub build_stored_request_fingerprint : ScanRow → Text
  unfolding build_request_fingerprint
  build_stored_request_fingerprint row =
      build_request_fingerprint row.cloud_provider row.scan_profile row.modules (record {
        target_url = or_null row.target_url;
        microsoft_tenant_id = or_null row.microsoft_tenant_id;
        subscriptions = row.subscriptions;
      })
