-- ===== src/Worker/Store/Marks.antt =====
-- scan-store.js: the transactions that record what became of an attempt: `markResourcePreflight`,
-- `markCompleted`, `markRetryable`, `markFailed`, `markRejectedMessage`. Each returns whether the
-- attempt still owned its scan.
use bevoac_dev.Prelude.{ℕ, Bool, true, false, ◌&&◌, Option, none, some, holds, ◌==◌, if◌then◌else◌}
use bevoac_dev.Prelude.Text.{Text, text, or_text}
use bevoac_dev.Database.{
  Db, ScanStatus, AttemptStatus, ScanRow, AttemptRow, BillingState, EventType, consumed, refunded,
  scan_consumed, scan_refunded, attempt_no_longer_owns, is_in_progress, coalesce, select_scan,
  update_scan, update_attempt,
}
use bevoac_dev.Worker.Errors.{ok, raised}
use bevoac_dev.Worker.Store.Transaction.{Tx, plain_error}
use bevoac_dev.Worker.Store.Results.{ResultCodec, Limits, ScanResult, bounded_text, save_result}
use bevoac_dev.Worker.Store.Billing.{transition_billing_state}

-- the attempt that a transaction speaks for
pub record Owner : Type 0 where
  pub scan_id : ℕ
  pub tenant_id : ℕ
  pub attempt_id : ℕ

-- WHERE … tenant_id = $2 AND processing_attempt_id = $3 AND status = 'IN_PROGRESS'
abbrev pub is_owned : Owner → ScanRow → Bool
is_owned o r =
    r.tenant_id == o.tenant_id
    && holds r.processing_attempt_id o.attempt_id
    && is_in_progress r.status

unfoldable pub mark_resource_preflight :
    Owner → (resource_count : ℕ) → (resource_limit : Option ℕ) → (now : ℕ) → Tx Bool
mark_resource_preflight o count limit now db =
    let (db', hit) =
      update_scan o.scan_id (is_owned o)
        (λ r. record r { resource_count = some count; resource_limit = limit; updated_at = now })
        db in
    (ok hit, db')

-- the text, code and correlation id of an error
pub record ErrorInfo : Type 0 where
  pub message : Option Text
  pub code : Option Text
  pub correlation_id : Option ℕ

abbrev pub with_error : ErrorInfo → AttemptRow → AttemptRow
with_error info r = record r {
  error_message = some (bounded_text info.message 4000);
  error_code = some (bounded_text info.code 120);
  error_correlation_id = info.correlation_id;
}

-- the attempt of an operation that found its scan owned by another
unfoldable pub skip_unowned : ℕ → ℕ → Db → Db
unfolding update_attempt
skip_unowned attempt_id now =
    update_attempt attempt_id (λ r. true)
      (λ r. record r {
        status = AttemptStatus.skipped;
        reason = some attempt_no_longer_owns;
        completed_at = coalesce r.completed_at now;
      })

unfoldable pub done_row : ℕ → ScanRow → ScanRow
done_row now r = record r {
  status = ScanStatus.done;
  completed_at = some now;
  updated_at = now;
  error_message = none;
  error_code = none;
  error_correlation_id = none;
}

unfoldable pub failed_row : ErrorInfo → Text → ℕ → ScanRow → ScanRow
failed_row info default now r = record r {
  status = ScanStatus.failed;
  error_message = some (bounded_text (some (or_text info.message default)) 4000);
  error_code = some (bounded_text info.code 120);
  error_correlation_id = info.correlation_id;
  updated_at = now;
  completed_at = coalesce r.completed_at now;
}

-- a terminal UPDATE of the owned row, and the billing transition that follows it
unfoldable pub close_scan :
    Owner → (ScanRow → ScanRow) → BillingState → EventType → Text → (now : ℕ) → (Db → Db) → Tx Bool
close_scan o change target event complaint now finish db =
    let (db', hit) = update_scan o.scan_id (is_owned o) change db in
    if hit
    then (ok true, finish (transition_billing_state o.scan_id o.tenant_id target event now db').0)
    else (raised (plain_error (some (text "SCAN_ATTEMPT_OWNERSHIP_LOST")) complaint), db')

unfoldable pub mark_completed : ResultCodec → Limits → Owner → ScanResult → (now : ℕ) → Tx Bool
mark_completed codec limits o result now db = elim (select_scan o.scan_id (is_owned o) db) [
  | none ↦ (ok false, skip_unowned o.attempt_id now db)
  | some _ ↦
      let (saved, db') = save_result codec limits o.scan_id o.tenant_id now result db in
      elim saved [
        | raised e ↦ (raised e, db')
        | ok _ ↦
            close_scan o (done_row now) consumed scan_consumed
              (text "The scan attempt lost ownership while completing the result.") now
              (update_attempt o.attempt_id (λ r. true)
                (λ r. record r { status = AttemptStatus.completed; completed_at = some now }))
              db'
      ]
]

unfoldable pub mark_retryable : Owner → ErrorInfo → (now : ℕ) → Tx Bool
mark_retryable o info now db =
    let (db', hit) =
      update_scan o.scan_id (is_owned o)
        (λ r. record r {
          status = ScanStatus.pending;
          processing_attempt_id = none;
          updated_at = now;
          error_message = some (bounded_text info.message 4000);
          error_code = some (bounded_text info.code 120);
          error_correlation_id = info.correlation_id;
        })
        db in
    (
      ok hit,
      update_attempt o.attempt_id (λ r. true)
          (λ r. record (with_error info r) {
            status = if hit then AttemptStatus.retryable else AttemptStatus.skipped;
            completed_at = some now;
          })
          db',
    )

-- `if (result) await saveResult(…)`
unfoldable pub save_optional :
    ResultCodec → Limits → (scan_id tenant_id now : ℕ) → Option ScanResult → Tx (Unit {0})
unfolding save_result
save_optional codec limits scan_id tenant_id now none db = (ok tt, db)
save_optional codec limits scan_id tenant_id now (some result) db =
    save_result codec limits scan_id tenant_id now result db

unfoldable pub mark_failed :
    ResultCodec
    → Limits
    → Owner
    → ErrorInfo
    → Option ScanResult
    → AttemptStatus
    → (now : ℕ) → Tx Bool
mark_failed codec limits o info result attempt_status now db =
    elim (select_scan o.scan_id (is_owned o) db) [
      | none ↦ (
        ok false,
        update_attempt o.attempt_id (λ r. true) (with_error info)
            (skip_unowned o.attempt_id now db),
      )
      | some _ ↦
          let (saved, db') = save_optional codec limits o.scan_id o.tenant_id now result db in
          elim saved [
            | raised e ↦ (raised e, db')
            | ok _ ↦
                close_scan o (failed_row info (text "Scan failed.") now) refunded scan_refunded
                  (text "The scan attempt lost ownership while persisting the terminal failure.")
                  now
                  (update_attempt o.attempt_id (λ r. true)
                    (λ r. record (with_error info r) {
                      status = attempt_status;
                      completed_at = some now;
                    }))
                  db'
          ]
    ]
