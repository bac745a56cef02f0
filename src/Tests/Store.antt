-- ===== src/Tests/Store.antt =====
-- The store's theorems at one scan.
use bevoac_dev.Prelude.{ℕ, ◌≤◌, ◌≡◌, refl, true, false, none, some, [], ◌∷◌, length, All, arith}
use bevoac_dev.Prelude.Text.{text, text_eq, utf8_length}
use bevoac_dev.Prelude.Table.{get, put}
use bevoac_dev.Database.{
  Db, ScanStatus, AttemptStatus, select_scan, update_scan, event_eq, is_event,
}
use bevoac_dev.Worker.Errors.{
  ok, js, worker, classify_worker_error, is_retryable_error, safe_code, retry_message,
}
use bevoac_dev.Worker.Errors.Classify.{IsSafe, safe_code_bounds, classify_keeps, classify_tells}
use bevoac_dev.Worker.Store.Transaction.{healthy, with_tenant_transaction}
use bevoac_dev.Worker.Store.Begin.{
  acquired, begin_attempt, acquire_scan, insert_started, is_redelivery, current_attempt,
}
use bevoac_dev.Worker.Store.Marks.{mark_completed, mark_retryable, mark_failed}
use bevoac_dev.Worker.Store.Reject.{mark_rejected_message}
use bevoac_dev.Worker.Lifecycle.{
  view, view_row, count_events, at_scan, complete, fail, release, reject, acquire,
}
use bevoac_dev.Worker.Lifecycle.Marks.{
  mark_completed-refines, mark_failed-refines, mark_retryable-refines,
}
use bevoac_dev.Worker.Lifecycle.Begin.{is_acquired, may_begin, grants, begin_attempt-refines}
use bevoac_dev.Worker.Lifecycle.Reject.{mark_rejected_message-refines}
use bevoac_dev.Worker.Lifecycle.Steps.{begins, completes, Life, call_tables, history}
use bevoac_dev.Worker.Lifecycle.Steps.Moves.{call_tables-Life}
use bevoac_dev.Worker.Lifecycle.Steps.Accounts.{Accounted, history-Accounted, closed_absorbs}
use bevoac_dev.Tests.Data.{
  codec, limits, scan_row, pending_db, running_db, claim, running_owner, scan_result, error_info,
  throttled,
}

mark_completed-refines_example :
    ((mark_completed codec limits running_owner scan_result 202 running_db).0 ≡ ok true)
    × ((j : ℕ)
        → view (mark_completed codec limits running_owner scan_result 202 running_db).1 j
          ≡ at_scan 1 j (complete running_owner) (view running_db j))
unfolding get view view_row utf8_length
mark_completed-refines_example =
    mark_completed-refines codec limits running_owner 202 scan_result running_db

mark_failed-refines_example :
    ((mark_failed codec limits running_owner error_info none AttemptStatus.attempt_failed 202
        running_db).0
      ≡ ok true)
    × ((j : ℕ)
        → view
            (mark_failed codec limits running_owner error_info none AttemptStatus.attempt_failed 202
              running_db).1
            j
          ≡ at_scan 1 j (fail running_owner) (view running_db j))
unfolding get view view_row
mark_failed-refines_example =
    mark_failed-refines codec limits running_owner 202 error_info none AttemptStatus.attempt_failed
      running_db

mark_retryable-refines_example :
    ((mark_retryable running_owner error_info 202 running_db).0 ≡ ok true)
    × ((j : ℕ)
        → view (mark_retryable running_owner error_info 202 running_db).1 j
          ≡ at_scan 1 j (release running_owner) (view running_db j))
unfolding get view view_row
mark_retryable-refines_example = mark_retryable-refines running_owner 202 error_info running_db

begin_attempt-refines_example :
    let after = with_tenant_transaction healthy (begin_attempt claim 200) pending_db in
    (is_acquired after.0 ≡ true)
    × ((j : ℕ) → view after.1 j ≡ at_scan 1 j (acquire 51) (view pending_db j))
unfolding get grants may_begin
begin_attempt-refines_example = begin_attempt-refines claim 200 pending_db

mark_rejected_message-refines_example :
    let after =
      with_tenant_transaction healthy
        (mark_rejected_message codec limits claim none (some (text "INVALID_SCAN_REQUEST")) 200)
        pending_db in
    (after.0 ≡ ok true) × ((j : ℕ) → view after.1 j ≡ at_scan 1 j (reject 7) (view pending_db j))
unfolding get view view_row utf8_length
mark_rejected_message-refines_example =
    mark_rejected_message-refines codec limits claim none (some (text "INVALID_SCAN_REQUEST")) 200
      pending_db

call_tables-Life_example :
    Life (view running_db 1) (
      view
        (call_tables codec limits healthy 202 (completes running_owner scan_result) running_db)
        1)
call_tables-Life_example =
    call_tables-Life codec limits healthy 202 (completes running_owner scan_result) running_db 1

pub pending-Accounted : Accounted (view pending_db 1)
unfolding get view view_row count_events is_event event_eq
pending-Accounted = record {
  is_reserved = omega arith;
  billing = refl;
  charges = refl;
  refunds = refl;
  unowned = λ h. refl;
}

history-Accounted_example : Accounted (
    view
      (history codec limits
        (record { connection = healthy; now = 200; call = begins claim } ∷ [])
        pending_db)
      1)
history-Accounted_example =
    history-Accounted codec limits
      (record { connection = healthy; now = 200; call = begins claim } ∷ []) pending_db 1
      pending-Accounted

-- the scan after it is done
abbrev pub done_db : Db
done_db = record running_db { scans = (1, scan_row ScanStatus.done (some 50)) ∷ [] }

closed_absorbs_example :
    view
      (history codec limits
        (record { connection = healthy; now = 200; call = begins claim } ∷ [])
        done_db)
      1
    ≡ view done_db 1
unfolding get view
closed_absorbs_example =
    closed_absorbs codec limits
      (record { connection = healthy; now = 200; call = begins claim } ∷ []) done_db 1
      (view_row done_db.ledger 1 (scan_row ScanStatus.done (some 50))) refl refl

begun : (begin_attempt claim 200 pending_db).0 ≡ ok (acquired false none)
unfolding get put begin_attempt select_scan acquire_scan update_scan insert_started is_redelivery
    current_attempt
begun = refl

classify_tells_example :
    text_eq (classify_worker_error (js throttled)).public_message retry_message
    ≡ is_retryable_error (js throttled)
classify_tells_example = classify_tells throttled

classify_keeps_example :
    ((classify_worker_error (js throttled)).retryable ≡ is_retryable_error (js throttled))
    × (classify_worker_error (worker (classify_worker_error (js throttled)))
        ≡ classify_worker_error (js throttled))
classify_keeps_example = classify_keeps (js throttled)

safe_code_bounds_example : (length (safe_code throttled) ≤ 120) × All IsSafe (safe_code throttled)
safe_code_bounds_example = safe_code_bounds throttled
