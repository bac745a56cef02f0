-- ===== src/Api/Snapshots/Totals.antt =====
-- What the monthly totals and the closing of a month guarantee.
use bevoac_dev.Prelude.{
  ℕ, ◌+◌, ◌≡◌, refl, inl, inr, true, false, List, [], ◌∷◌, ◌==◌, if◌then◌else◌, arith,
}
use bevoac_dev.Database.{LedgerEntry, scan_consumed, scan_refunded, event_eq}
use bevoac_dev.Worker.Store.Billing.{closing_entry}
use bevoac_dev.Api.Snapshots.{
  Snapshot, sum_where, is_payg_use, is_adjustment, is_credit, month_total, upsert, count_month,
  close_all, billing_error, close_billing_month,
}
use bevoac_dev.Api.Billing.{month_already_closed}

-- The entry that the worker writes for a refunded scan leaves the total of every month as it is, and the
-- entry for a consumed scan adds the amount of its reservation to the total of the reservation's month.
pub month_total-closing_entry :
    (tenant_id month scan_id now : ℕ) (row : LedgerEntry) (l : List LedgerEntry)
    → (month_total tenant_id month (closing_entry scan_id tenant_id scan_refunded now row ∷ l)
        ≡ month_total tenant_id month l)
      × (month_total tenant_id month (closing_entry scan_id tenant_id scan_consumed now row ∷ l)
          ≡ month_total tenant_id month l + (if row.quota_month == month then row.amount else 0))
unfolding month_total sum_where is_payg_use is_adjustment is_credit closing_entry event_eq
month_total-closing_entry tenant_id month scan_id now row l = (ground arith, ground arith)

closed-close_all :
    (month now : ℕ) (l : List Snapshot)
    → count_month month (λ s. s.is_closed) (close_all month now l) ≡ count_month month (λ s. true) l
unfolding count_month close_all
closed-close_all month now [] = refl
closed-close_all month now (s ∷ l) = ground (arith, closed-close_all month now l)

count-close_all :
    (month now : ℕ) (l : List Snapshot)
    → count_month month (λ s. true) (close_all month now l) ≡ count_month month (λ s. true) l
unfolding count_month close_all
count-close_all month now [] = refl
count-close_all month now (s ∷ l) = ground (arith, count-close_all month now l)

-- A month that is closed has every snapshot CLOSED, as many as were reported, and is refused a second
-- time.
pub close_billing_month-once :
    (current month now later : ℕ) (l after : List Snapshot) (n : ℕ)
    → close_billing_month current month now l ≡ inl (after, n)
    → (count_month month (λ s. s.is_closed) after ≡ n)
      × ((count_month month (λ s. true) after ≡ n)
          × (close_billing_month current month later after
              ≡ inr (billing_error month_already_closed)))
unfolding close_billing_month
close_billing_month-once current month now later l after n h =
    let p = closed-close_all month now l in let q = count-close_all month now l in ground arith

-- A snapshot that is written opens no closed month and closes none.
pub upsert-closed :
    (new : Snapshot) (month : ℕ) (l : List Snapshot)
    → new.is_closed ≡ false
    → count_month month (λ s. s.is_closed) (upsert new l) ≡ count_month month (λ s. s.is_closed) l
unfolding upsert count_month
upsert-closed new month [] h = ground arith
upsert-closed new month (s ∷ l) h = ground (arith, upsert-closed new month l h)
