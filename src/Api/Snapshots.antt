-- ===== src/Api/Snapshots.antt =====
-- services/billing-service.js of the API: the monthly snapshots (`upsertSnapshot`) and the closing of a
-- month (`closeBillingMonth`). The current month is a parameter, and a month is the number of its first
-- day, so a string that is no month does not arise. Amounts are cents and never negative, as the code
-- writes them.
pub mod Totals
use bevoac_dev.Prelude.{
  ℕ, ◌+◌, ◌⊎◌, inl, inr, Bool, true, false, not, ◌&&◌, ◌||◌, Option, none, some, List, [], ◌∷◌, ltb,
  leb, ◌==◌, if◌then◌else◌,
}
use bevoac_dev.Prelude.Text.{Text, text}
use bevoac_dev.Prelude.Table.{Table, get}
use bevoac_dev.Database.{
  LedgerEntry, EventType, scan_consumed, scan_reserved, scan_refunded, adjustment, credit, event_eq,
}
use bevoac_dev.Api.Billing.{
  BillingConfig, BillingError, BillingResult, accepted, refused, tenant_not_found,
  month_not_initialized, month_already_closed, TenantRow, Plan, get_plan_definition,
}

-- a row of billing_monthly_snapshots; `is_closed` is snapshot_status = 'CLOSED'
pub record Snapshot : Type 0 where
  pub tenant_id : ℕ
  pub quota_month : ℕ
  pub plan_code : Text
  pub quota_limit : Option ℕ
  pub resource_limit : Option ℕ
  pub included_units_used : ℕ
  pub payg_units_used : ℕ
  pub payg_unit_price : ℕ
  pub payg_amount : ℕ
  pub adjustments_amount : ℕ
  pub credits_amount : ℕ
  pub total_amount : ℕ
  pub reserved_units : ℕ
  pub is_closed : Bool
  pub closed_at : Option ℕ
  pub generated_at : ℕ

-- SUM(CASE WHEN test THEN column ELSE 0 END) over the ledger of a tenant's month
unfoldable pub sum_where :
    (tenant_id quota_month : ℕ) → (LedgerEntry → Bool) → (LedgerEntry → ℕ) → List LedgerEntry → ℕ
sum_where tenant_id quota_month test column [] = 0
sum_where tenant_id quota_month test column (e ∷ rest) =
    (if (e.tenant_id == tenant_id && e.quota_month == quota_month) && test e then column e else 0)
    + sum_where tenant_id quota_month test column rest

unfoldable pub is_included_use : LedgerEntry → Bool
unfolding event_eq
is_included_use e = event_eq e.event_type scan_consumed && e.amount == 0

unfoldable pub is_payg_use : LedgerEntry → Bool
unfolding event_eq
is_payg_use e = event_eq e.event_type scan_consumed && ltb 0 e.amount

unfoldable pub is_adjustment : LedgerEntry → Bool
unfolding event_eq
is_adjustment e = event_eq e.event_type adjustment

unfoldable pub is_credit : LedgerEntry → Bool
unfolding event_eq
is_credit e = event_eq e.event_type credit || event_eq e.event_type scan_refunded

unfoldable pub is_reservation : LedgerEntry → Bool
unfolding event_eq
is_reservation e = event_eq e.event_type scan_reserved

-- the amount of the month: pay-as-you-go, adjustments and credits
unfoldable pub month_total : (tenant_id quota_month : ℕ) → List LedgerEntry → ℕ
unfolding sum_where is_payg_use is_adjustment is_credit
month_total tenant_id quota_month l =
    (sum_where tenant_id quota_month is_payg_use (λ e. e.amount) l
      + sum_where tenant_id quota_month is_adjustment (λ e. e.amount) l)
    + sum_where tenant_id quota_month is_credit (λ e. e.amount) l

-- the row that the INSERT would write
unfoldable pub snapshot_row :
    (tenant_id quota_month : ℕ) → TenantRow → Plan → (now : ℕ) → List LedgerEntry → Snapshot
unfolding sum_where is_included_use is_payg_use is_adjustment is_credit is_reservation month_total
snapshot_row tenant_id quota_month tenant plan now l = record {
  tenant_id = tenant_id;
  quota_month = quota_month;
  plan_code = tenant.plan_code;
  quota_limit = plan.quota_limit;
  resource_limit = plan.resource_limit;
  included_units_used = sum_where tenant_id quota_month is_included_use (λ e. e.billing_units) l;
  payg_units_used = sum_where tenant_id quota_month is_payg_use (λ e. e.billing_units) l;
  payg_unit_price = plan.unit_price;
  payg_amount = sum_where tenant_id quota_month is_payg_use (λ e. e.amount) l;
  adjustments_amount = sum_where tenant_id quota_month is_adjustment (λ e. e.amount) l;
  credits_amount = sum_where tenant_id quota_month is_credit (λ e. e.amount) l;
  total_amount = month_total tenant_id quota_month l;
  reserved_units = sum_where tenant_id quota_month is_reservation (λ e. e.billing_units) l;
  is_closed = false;
  closed_at = none;
  generated_at = now;
}

abbrev pub is_of : (tenant_id quota_month : ℕ) → Snapshot → Bool
is_of tenant_id quota_month s = s.tenant_id == tenant_id && s.quota_month == quota_month

-- INSERT … ON CONFLICT (tenant_id, quota_month) DO UPDATE, which leaves the status and its date
unfoldable pub upsert : Snapshot → List Snapshot → List Snapshot
upsert new [] = new ∷ []
upsert new (s ∷ rest) =
    let later = upsert new rest in
    if is_of new.tenant_id new.quota_month s
    then record new { is_closed = s.is_closed; closed_at = s.closed_at } ∷ rest
    else s ∷ later

unfoldable pub upsert_snapshot :
    BillingConfig
    → Table TenantRow
    → (tenant_id quota_month now : ℕ) → List LedgerEntry
    → List Snapshot
    → BillingResult (List Snapshot)
unfolding get_plan_definition snapshot_row upsert
upsert_snapshot cfg tenants tenant_id quota_month now l snapshots = elim (get tenants tenant_id) [
  | none ↦ refused tenant_not_found
  | some tenant ↦ elim (get_plan_definition cfg tenant.plan_code) [
    | refused e ↦ refused e
    | accepted plan ↦
        accepted (upsert (snapshot_row tenant_id quota_month tenant plan now l) snapshots)
  ]
]

-- the number of the month's snapshots that pass a test
unfoldable pub count_month : ℕ → (Snapshot → Bool) → List Snapshot → ℕ
count_month quota_month test [] = 0
count_month quota_month test (s ∷ rest) =
    (if s.quota_month == quota_month && test s then 1 else 0) + count_month quota_month test rest

-- UPDATE … SET snapshot_status = 'CLOSED', closed_at = NOW() WHERE quota_month = $1
unfoldable pub close_all : (quota_month now : ℕ) → List Snapshot → List Snapshot
close_all quota_month now [] = []
close_all quota_month now (s ∷ rest) =
    (if s.quota_month == quota_month
      then record s { is_closed = true; closed_at = some now }
      else s)
    ∷ close_all quota_month now rest

pub data ClosingError : Type 0 where
  month_not_completed : ClosingError
  billing_error : BillingError → ClosingError

-- `closeBillingMonth`: the snapshots after it and the number of tenants closed, or the error that rolls
-- the transaction back. The entry of the audit log is left out.
unfoldable pub close_billing_month :
    (current_month quota_month now : ℕ) → List Snapshot → (List Snapshot × ℕ) ⊎ ClosingError
unfolding count_month close_all
close_billing_month current_month quota_month now snapshots =
    if leb current_month quota_month
    then inr month_not_completed
    else if count_month quota_month (λ s. true) snapshots == 0
    then inr (billing_error month_not_initialized)
    else if ltb 0 (count_month quota_month (λ s. s.is_closed) snapshots)
    then inr (billing_error month_already_closed)
    else inl (close_all quota_month now snapshots, count_month quota_month (λ s. true) snapshots)
