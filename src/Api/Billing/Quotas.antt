-- ===== src/Api/Billing/Quotas.antt =====
-- What an authorised scan does to the quota of its tenant.
use bevoac_dev.Prelude.{
  ℕ, ◌+◌, ◌≤◌, ◌<◌, ◌≡◌, refl, sym, ap, ◌∙◌, ◌⊎◌, inl, inr, true, none, [], ◌∷◌, get_or, Bool-cases,
  Option-cases, arith,
}
use bevoac_dev.Prelude.Table.{Table, get, put}
use bevoac_dev.Database.{Db, ScanRow, ScanStatus}
use bevoac_dev.Api.Billing.{
  BillingConfig, BillingResult, accepted, refused, BillingError, quota_exceeded, TenantRow, Plan,
  get_plan_definition, usage, get_active_scan_count, assert_backpressure, Authorization, Request,
  is_unlimited, charge_quota, authorize_scan, is_counted,
}

-- A new scan of the tenant's month that is in the quota adds its units to the usage.
usage-put_new :
    (tenant_id quota_month id : ℕ) (row : ScanRow) (scans : Table ScanRow)
    → get scans id ≡ none
    → row.tenant_id ≡ tenant_id
    → row.quota_month ≡ quota_month
    → is_counted row.status ≡ true
    → row.is_quota_included ≡ true
    → usage true tenant_id quota_month (put id row scans)
      ≡ usage true tenant_id quota_month scans + row.billing_units
unfolding usage get put
usage-put_new tenant_id quota_month id row [] h t m s q = ground arith
usage-put_new tenant_id quota_month id row ((k, r) ∷ scans) h t m s q =
    ground (arith, usage-put_new tenant_id quota_month id row scans)

charge_quota-within :
    (q : Request) (tenant : TenantRow) (plan : Plan) (counts : ℕ × ℕ) (quota_month now : ℕ)
    (db : Db) (x : Authorization)
    → (charge_quota q tenant plan counts quota_month now db).0 ≡ accepted x
    → x.is_quota_included ≡ true
    → (x.scans_used ≡ usage true q.tenant_id quota_month db.scans + q.billing_units)
      × (x.scans_used ≤ get_or x.quota_limit 0)
unfolding charge_quota
charge_quota-within q tenant plan (l, c) quota_month now db x h i =
    elim (Bool-cases (is_unlimited plan)) [ inl free ↦ ground arith | inr bound ↦ ground arith ]

pub BillingResult-cases :
    {A : Type 0} (r : BillingResult A)
    → ((a : A) × (r ≡ accepted a)) ⊎ ((e : BillingError) × (r ≡ refused e))
BillingResult-cases (accepted a) = inl (a, refl)
BillingResult-cases (refused e) = inr (e, refl)

-- An authorisation that is given comes from a tenant that is there and active, a known plan, and
-- a count of active scans below the limit.
authorize_scan-path :
    (cfg : BillingConfig) (tenants : Table TenantRow) (q : Request) (quota_month now : ℕ) (db : Db)
    (x : Authorization)
    → (authorize_scan cfg tenants q quota_month now db).0 ≡ accepted x
    → (tenant : TenantRow) × (plan : Plan) × (counts : ℕ × ℕ) × ((assert_backpressure cfg
            q.tenant_id tenant db.scans
          ≡ accepted counts)
        × ((charge_quota q tenant plan counts quota_month now db).0 ≡ accepted x))
unfolding authorize_scan
authorize_scan-path cfg tenants q quota_month now db x h =
    elim (Option-cases (get tenants q.tenant_id)) [
      | inl e ↦ ground arith
      | inr (tenant, e) ↦ elim (Bool-cases tenant.is_active) [
        | inr off ↦ ground arith
        | inl on ↦ elim (BillingResult-cases (get_plan_definition cfg tenant.plan_code)) [
          | inr (err, g) ↦ ground arith
          | inl (plan, g) ↦
              elim (BillingResult-cases (assert_backpressure cfg q.tenant_id tenant db.scans)) [
                | inr (err, k) ↦ ground arith
                | inl (counts, k) ↦
                    (tenant, plan, counts, (k, rw (e, on, g, k, authorize_scan) at h))
              ]
        ]
      ]
    ]

-- Where an authorisation in the quota is given, and the caller inserts the scan with the units, the
-- month and the flag of the authorisation under a new id, the tenant's usage of the month is what the
-- authorisation says, and within the quota.
pub authorize_scan-within_quota :
    (cfg : BillingConfig) (tenants : Table TenantRow) (q : Request) (quota_month now : ℕ) (db : Db)
    (x : Authorization) (id : ℕ) (row : ScanRow)
    → (authorize_scan cfg tenants q quota_month now db).0 ≡ accepted x
    → x.is_quota_included ≡ true
    → get db.scans id ≡ none
    → row.tenant_id ≡ q.tenant_id
    → row.quota_month ≡ quota_month
    → row.status ≡ ScanStatus.pending
    → row.is_quota_included ≡ true
    → row.billing_units ≡ q.billing_units
    → (usage true q.tenant_id quota_month (put id row db.scans) ≡ x.scans_used)
      × (x.scans_used ≤ get_or x.quota_limit 0)
authorize_scan-within_quota cfg tenants q quota_month now db x id row h i fresh t m s f u =
    let (tenant, plan, counts, (k, c)) = authorize_scan-path cfg tenants q quota_month now db x h in
    let (used, bound) = charge_quota-within q tenant plan counts quota_month now db x c i in
    (
      usage-put_new q.tenant_id quota_month id row db.scans fresh t m (ap is_counted s) f
          ∙ (ap (λ n. usage true q.tenant_id quota_month db.scans + n) u ∙ sym used),
      bound,
    )

-- An authorisation is given only while the tenant has fewer active scans than its plan allows.
pub authorize_scan-below_limit :
    (cfg : BillingConfig) (tenants : Table TenantRow) (q : Request) (quota_month now : ℕ) (db : Db)
    (x : Authorization)
    → (authorize_scan cfg tenants q quota_month now db).0 ≡ accepted x
    → (x.active_count ≡ get_active_scan_count q.tenant_id db.scans)
      × (x.active_count < x.active_limit)
unfolding assert_backpressure charge_quota
authorize_scan-below_limit cfg tenants q quota_month now db x h =
    let (tenant, plan, (l, c), (k, r)) = authorize_scan-path cfg tenants q quota_month now db x h in
    ground arith

-- The tables change only when the quota is exceeded, and then by one ledger entry and no scan.
pub authorize_scan-tables :
    (cfg : BillingConfig) (tenants : Table TenantRow) (q : Request) (quota_month now : ℕ) (db : Db)
    → let after = authorize_scan cfg tenants q quota_month now db in
      (after.1.scans ≡ db.scans)
      × ((after.0 ≡ refused quota_exceeded) ⊎ (after.1.ledger ≡ db.ledger))
unfolding authorize_scan charge_quota
authorize_scan-tables cfg tenants q quota_month now db = ground arith

-- An authorisation that is given has changed no table, and is for the units that were asked for.
pub authorize_scan-accepted :
    (cfg : BillingConfig) (tenants : Table TenantRow) (q : Request) (quota_month now : ℕ) (db : Db)
    (x : Authorization)
    → (authorize_scan cfg tenants q quota_month now db).0 ≡ accepted x
    → ((authorize_scan cfg tenants q quota_month now db).1 ≡ db)
      × (x.billing_units ≡ q.billing_units)
unfolding authorize_scan charge_quota
authorize_scan-accepted cfg tenants q quota_month now db x h = ground arith
