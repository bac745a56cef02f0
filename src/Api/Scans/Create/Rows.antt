-- ===== src/Api/Scans/Create/Rows.antt =====
-- What `createScanRequest` of services/scan-service.js looks up, writes and answers: the row of an
-- idempotency key with its scan, the new rows and the message.
use bevoac_dev.Prelude.{ℕ, Bool, true, ◌&&◌, Option, none, some, List, [], ◌∷◌, ◌==◌, if◌then◌else◌}
use bevoac_dev.Prelude.Text.{Text, text_eq, truthy, or_text, or_null}
use bevoac_dev.Prelude.Table.{get}
use bevoac_dev.Database.{ScanRow, ScanStatus, BillingState, reserved, LedgerEntry, scan_reserved}
use bevoac_dev.Api.Errors.{
  ApiError, idempotency_conflict, database_error, ApiResult, returned, failed,
}
use bevoac_dev.Api.Contract.{Azure, resolve_billing_units}
use bevoac_dev.Api.Billing.{Authorization, Request}
use bevoac_dev.Api.Scans.{
  KeySource, client_supplied, IdempotencyRow, ApiDb, RequestId, given, of_scan, ScanMessage, Tools,
  ScanRequest, Draws, Idempotency, build_stored_request_fingerprint,
}

-- what the caller gets: of a new scan, or of the scan that the key has already
pub record CreatedScan : Type 0 where
  pub scan_id : ℕ
  pub idempotency : Idempotency
  pub authorization : Authorization
  pub azure : Azure
  pub created_at : ℕ

pub record ReusedScan : Type 0 where
  pub scan_id : ℕ
  pub status : ScanStatus
  pub idempotency : Idempotency
  pub created_at : ℕ
  pub billing_units : ℕ
  pub is_quota_included : Bool
  pub quota_month : ℕ
  pub resource_limit : Option ℕ
  pub billing_state : BillingState
  pub azure : Azure

pub data ScanResponse : Type 0 where
  created : CreatedScan → ScanResponse
  reused : ReusedScan → ScanResponse

-- the row of a key: `i.tenant_id = $1 AND i.idempotency_key = $2`
unfoldable pub find_key :
    (tenant_id : ℕ) → (key : Text) → List IdempotencyRow → Option IdempotencyRow
unfolding text_eq
find_key tenant_id key [] = none
find_key tenant_id key (i ∷ rows) =
    let later = find_key tenant_id key rows in
    if i.tenant_id == tenant_id && text_eq i.idempotency_key key then some i else later

-- `selectExisting`: the row of the key, joined with its scan
unfoldable pub select_existing :
    (tenant_id : ℕ) → (key : Text) → ApiDb → Option (IdempotencyRow × ScanRow)
unfolding find_key get
select_existing tenant_id key db = elim (find_key tenant_id key db.idempotency) [
  | none ↦ none
  | some i ↦ elim (get db.shared.scans i.scan_id) [
    | none ↦ none
    | some s ↦ if s.tenant_id == i.tenant_id then some (i, s) else none
  ]
]

-- `COALESCE(i.idempotency_key_source, 'client_supplied')`
abbrev pub source_of : Option KeySource → KeySource
source_of none = client_supplied
source_of (some s) = s

unfoldable pub existing_scan_response : IdempotencyRow → ScanRow → ReusedScan
existing_scan_response i s = record {
  scan_id = i.scan_id;
  status = s.status;
  idempotency = record { key = i.idempotency_key; source = source_of i.key_source };
  created_at = s.created_at;
  billing_units = s.billing_units;
  is_quota_included = s.is_quota_included;
  quota_month = s.quota_month;
  resource_limit = s.resource_limit;
  billing_state = s.billing_state;
  azure = record {
    target_url = or_null s.target_url;
    microsoft_tenant_id = or_null s.microsoft_tenant_id;
    subscriptions = s.subscriptions;
  };
}

-- `row.request_fingerprint || buildStoredRequestFingerprint(row)`
unfoldable pub stored_fingerprint : Tools → IdempotencyRow → ScanRow → Text
unfolding build_stored_request_fingerprint
stored_fingerprint tools i s =
    or_text i.request_fingerprint (build_stored_request_fingerprint tools s)

-- `assertIdempotencyFingerprint`, and the answer
unfoldable pub answer_existing :
    Tools → (fingerprint key : Text) → IdempotencyRow × ScanRow → ApiResult ScanResponse
unfolding stored_fingerprint existing_scan_response text_eq
answer_existing tools fingerprint key (i, s) =
    if text_eq (stored_fingerprint tools i s) fingerprint
    then returned (reused (existing_scan_response i s))
    else failed (idempotency_conflict key)

unfoldable pub new_scan : ScanRequest → Azure → Authorization → Draws → ScanRow
new_scan q azure a draws = record {
  tenant_id = q.tenant_id;
  cloud_provider = q.cloud_provider;
  scan_profile = q.scan_profile;
  modules = q.modules;
  target_url = or_null azure.target_url;
  microsoft_tenant_id = or_null azure.microsoft_tenant_id;
  subscriptions = azure.subscriptions;
  billing_units = a.billing_units;
  is_quota_included = a.is_quota_included;
  quota_month = draws.quota_month;
  resource_limit = a.resource_limit;
  resource_count = none;
  status = ScanStatus.pending;
  processing_attempt_id = none;
  billing_state = reserved;
  billing_error = none;
  error_message = none;
  error_code = none;
  error_correlation_id = none;
  result_size_bytes = none;
  result_sha256 = none;
  started_at = none;
  completed_at = none;
  created_at = draws.now;
  updated_at = draws.now;
}

-- the entry of `recordLedgerEvent`
unfoldable pub reservation_entry : ScanRequest → Authorization → Draws → LedgerEntry
reservation_entry q a draws = record {
  tenant_id = q.tenant_id;
  scan_id = some draws.scan_id;
  event_type = scan_reserved;
  plan_code = a.plan_code;
  quota_month = draws.quota_month;
  billing_units = a.billing_units;
  unit_price = if a.is_quota_included then 0 else a.payg_unit_price;
  amount = a.estimated_cost;
  cloud_provider = or_null (some q.cloud_provider);
  scan_profile = or_null (some q.scan_profile);
  modules = q.modules;
  recorded_at = draws.now;
}

abbrev request_id_of : ScanRequest → Draws → RequestId
request_id_of q draws =
    if truthy q.request_id then given (or_text q.request_id []) else of_scan draws.scan_id

unfoldable pub build_scan_requested_message :
    ScanRequest → Azure → Authorization → Draws → ScanMessage
build_scan_requested_message q azure a draws = record {
  scan_id = draws.scan_id;
  tenant_id = q.tenant_id;
  cloud_provider = q.cloud_provider;
  scan_profile = q.scan_profile;
  modules = q.modules;
  azure = record {
    target_url = or_null azure.target_url;
    microsoft_tenant_id = or_null azure.microsoft_tenant_id;
    subscriptions = azure.subscriptions;
  };
  plan_code = or_null (some a.plan_code);
  billing_units = if a.billing_units == 0 then 1 else a.billing_units;
  quota_month = draws.quota_month;
  resource_limit = a.resource_limit;
  requested_at = draws.now;
  request_id = request_id_of q draws;
}

abbrev pub unique_violation_of : Text → ApiError
unique_violation_of constraint =
    database_error (record { is_unique_violation = true; constraint = constraint })

-- the scan that `authorizeScan` is asked about
unfoldable pub billing_request : ScanRequest → Azure → Request
unfolding resolve_billing_units
billing_request q azure = record {
  tenant_id = q.tenant_id;
  billing_units = resolve_billing_units q.scan_profile azure;
  cloud_provider = or_null (some q.cloud_provider);
  scan_profile = or_null (some q.scan_profile);
  modules = q.modules;
}
