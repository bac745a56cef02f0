-- ===== src/Worker/Store/Billing.antt =====
-- scan-store.js: `transitionBillingState`, which turns a reservation into a consumption or a refund.
use bevoac_dev.Prelude.{
  ℕ, Bool, true, false, Option, none, some, List, [], ◌∷◌, any, ltb, ◌==◌, if◌then◌else◌,
}
use bevoac_dev.Prelude.Text.{text}
use bevoac_dev.Database.{
  Db, ScanRow, LedgerEntry, BillingState, EventType, scan_reserved, scan_refunded, event_eq,
  is_event, update_scan,
}

-- SELECT * … AND event_type = 'scan_reserved' ORDER BY recorded_at DESC LIMIT 1
unfoldable pub latest_reservation : ℕ → ℕ → List LedgerEntry → Option LedgerEntry
latest_reservation scan_id tenant_id [] = none
latest_reservation scan_id tenant_id (e ∷ rest) =
    let older = latest_reservation scan_id tenant_id rest in
    if is_event scan_id tenant_id scan_reserved e
    then elim older [
      | none ↦ some e
      | some b ↦ if ltb e.recorded_at b.recorded_at then some b else some e
    ]
    else older

-- The closing entry copies the reservation; a refund has the amount 0.
unfoldable pub closing_entry : ℕ → ℕ → EventType → ℕ → LedgerEntry → LedgerEntry
unfolding event_eq
closing_entry scan_id tenant_id event now row = record {
  tenant_id = tenant_id;
  scan_id = some scan_id;
  event_type = event;
  plan_code = row.plan_code;
  quota_month = row.quota_month;
  billing_units = row.billing_units;
  unit_price = row.unit_price;
  amount = if event_eq event scan_refunded then 0 else row.amount;
  cloud_provider = row.cloud_provider;
  scan_profile = row.scan_profile;
  modules = row.modules;
  recorded_at = now;
}

-- INSERT of the closing entry, unless the scan has one
unfoldable pub closed_ledger :
    (scan_id tenant_id : ℕ)
    → EventType
    → (now : ℕ) → LedgerEntry
    → List LedgerEntry
    → List LedgerEntry
closed_ledger scan_id tenant_id event now row l =
    if any (is_event scan_id tenant_id event) l
    then l
    else closing_entry scan_id tenant_id event now row ∷ l

-- The flag is the boolean that the function returns.
unfoldable pub transition_billing_state :
    (scan_id tenant_id : ℕ) → BillingState → EventType → (now : ℕ) → Db → Db × Bool
unfolding closed_ledger
transition_billing_state scan_id tenant_id target event now db =
    let mine : ScanRow → Bool = λ r. r.tenant_id == tenant_id in
    elim (latest_reservation scan_id tenant_id db.ledger) [
      | none ↦
          let marked =
            update_scan scan_id mine
              (λ r. record r {
                billing_state = target;
                billing_error = some (text "Missing scan_reserved ledger entry");
              })
              db in
          (marked.0, false)
      | some row ↦
          let ledger = closed_ledger scan_id tenant_id event now row db.ledger in
          let marked =
            update_scan scan_id mine
              (λ r. record r { billing_state = target; billing_error = none })
              (record db { ledger = ledger }) in
          (marked.0, true)
    ]
