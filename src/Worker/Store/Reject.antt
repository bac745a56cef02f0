-- ===== src/Worker/Store/Reject.antt =====
-- scan-store.js: `markRejectedMessage`, for a message that breaks the contract but names its scan.
use bevoac_dev.Prelude.{ℕ, Bool, true, false, ◌&&◌, Option, none, some, ◌==◌, if◌then◌else◌}
use bevoac_dev.Prelude.Text.{Text, or_null}
use bevoac_dev.Database.{
  ScanStatus, AttemptStatus, ScanRow, AttemptRow, Reason, refunded, scan_refunded, scan_not_pending,
  is_pending, coalesce, select_scan, update_scan, insert_attempt_quiet,
}
use bevoac_dev.Worker.Errors.{ok, raised}
use bevoac_dev.Worker.Store.Transaction.{Tx}
use bevoac_dev.Worker.Store.Results.{ResultCodec, Limits, ScanResult, bounded_text, save_result}
use bevoac_dev.Worker.Store.Billing.{transition_billing_state}
use bevoac_dev.Worker.Store.Begin.{Claim}

-- the row of an attempt that never ran
unfoldable pub rejected_attempt :
    Claim → (message code : Option Text) → AttemptStatus → Option Reason → (now : ℕ) → AttemptRow
rejected_attempt c message code status reason now = record {
  scan_id = c.scan_id;
  tenant_id = c.tenant_id;
  worker_name = or_null c.worker_name;
  message_id = or_null c.message_id;
  delivery_count = c.delivery_count;
  status = status;
  error_message = some (bounded_text message 4000);
  error_code = some (bounded_text code 120);
  error_correlation_id = some c.attempt_id;
  reason = reason;
  started_at = now;
  completed_at = some now;
}

abbrev pub is_open : ℕ → ScanRow → Bool
is_open tenant_id r = r.tenant_id == tenant_id && is_pending r.status

unfoldable pub rejected_row : Claim → (message code : Option Text) → (now : ℕ) → ScanRow → ScanRow
rejected_row c message code now r = record r {
  status = ScanStatus.failed;
  processing_attempt_id = none;
  error_message = some (bounded_text message 4000);
  error_code = some (bounded_text code 120);
  error_correlation_id = some c.attempt_id;
  updated_at = now;
  completed_at = coalesce r.completed_at now;
}

-- the result object that is stored for the customer
abbrev pub rejection_result : Claim → (message code : Option Text) → ScanResult
rejection_result c message code = record {
  report = none;
  preflight = none;
  error = some (record {
    code = bounded_text code 120;
    message = bounded_text message 4000;
    correlation_id = some c.attempt_id;
    retryable = false;
  });
}

unfoldable pub mark_rejected_message :
    ResultCodec → Limits → Claim → (message code : Option Text) → (now : ℕ) → Tx Bool
mark_rejected_message codec limits c message code now db =
    let (db', hit) =
      update_scan c.scan_id (is_open c.tenant_id) (rejected_row c message code now) db in
    let attempt = rejected_attempt c message code in
    let (saved, db'') =
      save_result codec limits c.scan_id c.tenant_id now (rejection_result c message code) db' in
    if hit
    then elim saved [
      | raised e ↦ (raised e, db'')
      | ok _ ↦ (
        ok true,
        insert_attempt_quiet c.attempt_id (attempt AttemptStatus.dead_lettered none now)
            (transition_billing_state c.scan_id c.tenant_id refunded scan_refunded now db'').0,
      )
    ]
    else elim (select_scan c.scan_id (λ r. r.tenant_id == c.tenant_id) db') [
      | none ↦ (ok false, db')
      | some _ ↦ (
        ok false,
        insert_attempt_quiet c.attempt_id
            (attempt AttemptStatus.skipped (some scan_not_pending) now) db',
      )
    ]
