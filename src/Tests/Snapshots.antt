-- ===== src/Tests/Snapshots.antt =====
-- One snapshot, its closing, and the entries of one scan.
use bevoac_dev.Prelude.{ℕ, ◌+◌, ◌≡◌, refl, inl, inr, Bool, true, false, Option, none, some, [], ◌∷◌}
use bevoac_dev.Prelude.Text.{text}
use bevoac_dev.Database.{scan_consumed, scan_refunded}
use bevoac_dev.Worker.Store.Billing.{closing_entry}
use bevoac_dev.Api.Billing.{month_already_closed}
use bevoac_dev.Api.Snapshots.{
  Snapshot, month_total, count_month, close_all, billing_error, close_billing_month,
}
use bevoac_dev.Api.Snapshots.Totals.{month_total-closing_entry, close_billing_month-once}
use bevoac_dev.Tests.Data.{reservation}

abbrev snapshot : Bool → Option ℕ → Snapshot
snapshot closed at = record {
  tenant_id = 7;
  quota_month = 20;
  plan_code = text "standard";
  quota_limit = some 20;
  resource_limit = some 500;
  included_units_used = 1;
  payg_units_used = 0;
  payg_unit_price = 0;
  payg_amount = 0;
  adjustments_amount = 0;
  credits_amount = 0;
  total_amount = 0;
  reserved_units = 1;
  is_closed = closed;
  closed_at = at;
  generated_at = 100;
}

month_total-closing_entry_example :
    (month_total 7 20 (closing_entry 1 7 scan_refunded 202 reservation ∷ reservation ∷ [])
      ≡ month_total 7 20 (reservation ∷ []))
    × (month_total 7 20 (closing_entry 1 7 scan_consumed 202 reservation ∷ reservation ∷ [])
        ≡ month_total 7 20 (reservation ∷ []) + 0)
month_total-closing_entry_example =
    month_total-closing_entry 7 20 1 202 reservation (reservation ∷ [])

month_closes :
    close_billing_month 21 20 300 (snapshot false none ∷ [])
    ≡ inl (snapshot true (some 300) ∷ [], 1)
unfolding close_billing_month count_month close_all
month_closes = refl

close_billing_month-once_example :
    (count_month 20 (λ s. s.is_closed) (snapshot true (some 300) ∷ []) ≡ 1)
    × ((count_month 20 (λ s. true) (snapshot true (some 300) ∷ []) ≡ 1)
        × (close_billing_month 21 20 400 (snapshot true (some 300) ∷ [])
            ≡ inr (billing_error month_already_closed)))
close_billing_month-once_example =
    close_billing_month-once 21 20 300 400 (snapshot false none ∷ [])
      (snapshot true (some 300) ∷ []) 1 month_closes
