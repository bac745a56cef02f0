-- ===== src/Api/Billing.antt =====
-- services/billing-service.js of the API: the authorisation of a scan against the quota of its tenant,
-- and the closing of a month. The advisory lock of the tenant's month makes the authorisations of one
-- tenant run one after the other. Prices are cents, and a price of the configuration is a whole number
-- of them, so `money` rounds nothing.
pub mod Quotas
use bevoac_dev.Prelude.{
  ℕ, ◌+◌, ◌*◌, ◌-◌, Bool, true, false, not, ◌&&◌, ◌||◌, Option, none, some, List, [], ◌∷◌, ltb, leb,
  ◌==◌, get_or, if◌then◌else◌,
}
use bevoac_dev.Prelude.Text.{Text, text, text_eq}
use bevoac_dev.Prelude.Table.{Table, get, put}
use bevoac_dev.Database.{
  Db, ScanRow, ScanStatus, LedgerEntry, EventType, is_pending, is_in_progress, scan_blocked_quota,
  scan_consumed, scan_reserved, scan_refunded, adjustment, credit, event_eq,
}

-- `AppError` and its kin, by their codes
pub data BillingError : Type 0 where
  unsupported_plan tenant_not_found active_limit_reached : BillingError
  quota_exceeded month_not_initialized month_already_closed : BillingError

pub data BillingResult (A : Type 0) : Type 0 where
  accepted : A → BillingResult A
  refused : BillingError → BillingResult A

-- `tenants`
pub record TenantRow : Type 0 where
  pub plan_code : Text
  pub is_active : Bool

pub record Plan : Type 0 where
  pub quota_limit : Option ℕ
  pub resource_limit : Option ℕ
  pub payg : Bool
  pub unit_price : ℕ

-- the configuration that the service reads; the limits may be absent, and payg's limit may be null
pub record BillingConfig : Type 0 where
  pub quota_free : ℕ
  pub quota_standard : ℕ
  pub quota_business : ℕ
  pub resources_free : Option ℕ
  pub resources_standard : Option ℕ
  pub resources_business : Option ℕ
  pub resources_payg : Option ℕ
  pub payg_unit_price : ℕ
  pub active_limits : List (Text × ℕ)

unfoldable pub get_plan_definition : BillingConfig → Text → BillingResult Plan
unfolding text_eq
get_plan_definition cfg plan_code =
    if text_eq plan_code (text "free")
    then accepted (record {
      quota_limit = some cfg.quota_free;
      resource_limit = some (get_or cfg.resources_free 10);
      payg = false;
      unit_price = 0;
    })
    else if text_eq plan_code (text "standard")
    then accepted (record {
      quota_limit = some cfg.quota_standard;
      resource_limit = some (get_or cfg.resources_standard 500);
      payg = false;
      unit_price = 0;
    })
    else if text_eq plan_code (text "business")
    then accepted (record {
      quota_limit = some cfg.quota_business;
      resource_limit = some (get_or cfg.resources_business 2500);
      payg = false;
      unit_price = 0;
    })
    else if text_eq plan_code (text "payg")
    then accepted (record {
      quota_limit = none;
      resource_limit = cfg.resources_payg;
      payg = true;
      unit_price = cfg.payg_unit_price;
    })
    else refused unsupported_plan

unfoldable pub limit_of : Text → List (Text × ℕ) → Option ℕ
unfolding text_eq
limit_of code [] = none
limit_of code ((k, n) ∷ rest) =
    let later = limit_of code rest in if text_eq k code then some n else later

-- `limits[planCode] ?? limits.standard ?? 3`
unfoldable pub get_active_scan_limit : BillingConfig → Text → ℕ
unfolding limit_of
get_active_scan_limit cfg plan_code =
    get_or (limit_of plan_code cfg.active_limits)
      (get_or (limit_of (text "standard") cfg.active_limits) 3)

-- status IN ('PENDING','IN_PROGRESS')
abbrev pub is_active_status : ScanStatus → Bool
is_active_status ScanStatus.pending = true
is_active_status ScanStatus.in_progress = true
is_active_status _ = false

-- status IN ('PENDING','IN_PROGRESS','DONE')
abbrev pub is_counted : ScanStatus → Bool
is_counted ScanStatus.failed = false
is_counted _ = true

-- the SUMs of `getUsageCounts`: the units of a tenant's month that are in its quota, or not
unfoldable pub usage : (included : Bool) → (tenant_id quota_month : ℕ) → Table ScanRow → ℕ
usage included tenant_id quota_month [] = 0
usage included tenant_id quota_month ((id, r) ∷ rest) =
    (if r.tenant_id == tenant_id
        && r.quota_month == quota_month
        && is_counted r.status
        && (if included then r.is_quota_included else not r.is_quota_included)
      then r.billing_units
      else 0)
    + usage included tenant_id quota_month rest

unfoldable pub get_active_scan_count : ℕ → Table ScanRow → ℕ
get_active_scan_count tenant_id [] = 0
get_active_scan_count tenant_id ((id, r) ∷ rest) =
    (if r.tenant_id == tenant_id && is_active_status r.status then 1 else 0)
    + get_active_scan_count tenant_id rest

-- `activeCount >= activeLimit` throws; the limit is a number, never null
unfoldable pub assert_backpressure :
    BillingConfig → ℕ → TenantRow → Table ScanRow → BillingResult (ℕ × ℕ)
unfolding get_active_scan_limit get_active_scan_count
assert_backpressure cfg tenant_id tenant scans =
    let active_limit = get_active_scan_limit cfg tenant.plan_code in
    let active_count = get_active_scan_count tenant_id scans in
    if leb active_limit active_count
    then refused active_limit_reached
    else accepted (active_limit, active_count)

-- `billing` of what `authorizeScan` returns
pub record Authorization : Type 0 where
  pub plan_code : Text
  pub billing_units : ℕ
  pub is_quota_included : Bool
  pub quota_limit : Option ℕ
  pub resource_limit : Option ℕ
  pub active_limit : ℕ
  pub active_count : ℕ
  pub scans_used : ℕ
  pub scans_remaining : Option ℕ
  pub payg_unit_price : ℕ
  pub estimated_cost : ℕ

-- The scan that is asked for.
pub record Request : Type 0 where
  pub tenant_id : ℕ
  pub billing_units : ℕ
  pub cloud_provider : Option Text
  pub scan_profile : Option Text
  pub modules : List Text

-- the ledger entry of a refused scan
unfoldable pub blocked_entry : Request → TenantRow → (quota_month now : ℕ) → LedgerEntry
blocked_entry q tenant quota_month now = record {
  tenant_id = q.tenant_id;
  scan_id = none;
  event_type = scan_blocked_quota;
  plan_code = tenant.plan_code;
  quota_month = quota_month;
  billing_units = q.billing_units;
  unit_price = 0;
  amount = 0;
  cloud_provider = q.cloud_provider;
  scan_profile = q.scan_profile;
  modules = q.modules;
  recorded_at = now;
}

-- no quota: the plan has none, or it is payg with the quota 0
abbrev pub is_unlimited : Plan → Bool
is_unlimited plan = elim plan.quota_limit [ none ↦ true | some n ↦ plan.payg && n == 0 ]

-- The part of `authorizeScan` after the plan and the active scans are known, with the ledger entry that
-- a refusal writes before it throws. (The caller's transaction decides whether that entry stays.)
unfoldable pub charge_quota :
    Request
    → TenantRow
    → Plan
    → ℕ × ℕ
    → (quota_month now : ℕ) → Db
    → BillingResult Authorization × Db
unfolding usage blocked_entry
charge_quota q tenant plan (active_limit, active_count) quota_month now db =
    let used = usage true q.tenant_id quota_month db.scans in
    let authorization : Bool → ℕ → Option ℕ → ℕ → Authorization =
      λ included now_used remaining cost. record {
        plan_code = tenant.plan_code;
        billing_units = q.billing_units;
        is_quota_included = included;
        quota_limit = plan.quota_limit;
        resource_limit = plan.resource_limit;
        active_limit = active_limit;
        active_count = active_count;
        scans_used = now_used;
        scans_remaining = remaining;
        payg_unit_price = plan.unit_price;
        estimated_cost = cost;
      } in
    if is_unlimited plan
    then (
      accepted (authorization false used plan.quota_limit (q.billing_units * plan.unit_price)),
      db,
    )
    else let limit = get_or plan.quota_limit 0 in
      let projected = used + q.billing_units in
      if ltb limit projected
      then (
        refused quota_exceeded,
        record db { ledger = blocked_entry q tenant quota_month now ∷ db.ledger },
      )
      else (accepted (authorization true projected (some (limit - projected)) 0), db)

unfoldable pub authorize_scan :
    BillingConfig
    → Table TenantRow
    → Request
    → (quota_month now : ℕ) → Db
    → BillingResult Authorization × Db
unfolding get_plan_definition assert_backpressure charge_quota
authorize_scan cfg tenants q quota_month now db = elim (get tenants q.tenant_id) [
  | none ↦ (refused tenant_not_found, db)
  | some tenant ↦
      if tenant.is_active
      then elim (get_plan_definition cfg tenant.plan_code) [
        | refused e ↦ (refused e, db)
        | accepted plan ↦ elim (assert_backpressure cfg q.tenant_id tenant db.scans) [
          | refused e ↦ (refused e, db)
          | accepted counts ↦ charge_quota q tenant plan counts quota_month now db
        ]
      ]
      else (refused tenant_not_found, db)
]
