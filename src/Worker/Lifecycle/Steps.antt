-- ===== src/Worker/Lifecycle/Steps.antt =====
-- Histories: any calls of the store by any workers, one transaction after the other, over connections
-- that may fail before or after the commit.
pub mod Moves
pub mod Accounts
use bevoac_dev.Prelude.{
  ℕ, ◌≡◌, refl, ap, sym, ◌∙◌, ◌⊎◌, inl, inr, Bool, true, false, ◌&&◌, Option, none, some, List, [],
  ◌∷◌, ◌==◌, if◌then◌else◌, arith, Option-cases, Bool-cases, ==_iff,
}
use bevoac_dev.Prelude.Text.{Text}
use bevoac_dev.Database.{
  Db, ScanStatus, AttemptStatus, consumed, refunded, scan_consumed, scan_refunded, is_terminal,
}
use bevoac_dev.Worker.Errors.{Outcome, ok, raised}
use bevoac_dev.Worker.Store.Transaction.{
  Tx, Connection, healthy, with_tenant_transaction, reaches, transaction-tables, transaction-ok,
  transaction-raised,
}
use bevoac_dev.Worker.Store.Results.{ResultCodec, Limits, ScanResult}
use bevoac_dev.Worker.Store.Begin.{Claim, is_redelivery, begin_attempt}
use bevoac_dev.Worker.Store.Marks.{
  Owner, ErrorInfo, mark_resource_preflight, mark_completed, mark_retryable, mark_failed,
}
use bevoac_dev.Worker.Store.Reject.{rejection_result, mark_rejected_message}
use bevoac_dev.Worker.Lifecycle.{
  View, view, view_row, on_view, at_scan, owns, owns_scan, bill, complete, fail, release, reject,
  acquire,
}
use bevoac_dev.Worker.Lifecycle.Marks.{
  too_big, too_big_opt, closes, mark_completed-refines, mark_failed-refines, mark_retryable-refines,
  mark_resource_preflight-refines,
}
use bevoac_dev.Worker.Lifecycle.Begin.{grants, may_begin, begin_attempt-refines}
use bevoac_dev.Worker.Lifecycle.Reject.{opens, mark_rejected_message-refines}

-- a call of scan-store.js with its arguments
pub data Call : Type 0 where
  begins : Claim → Call
  preflights : Owner → ℕ → Option ℕ → Call
  completes : Owner → ScanResult → Call
  retries : Owner → ErrorInfo → Call
  fails : Owner → ErrorInfo → Option ScanResult → AttemptStatus → Call
  rejects : Claim → Option Text → Option Text → Call

pub record Event : Type 0 where
  pub connection : Connection
  pub now : ℕ
  pub call : Call

module _ (codec : ResultCodec) (limits : Limits) where
  -- the tables after a call
  unfoldable pub call_tables : Connection → ℕ → Call → Db → Db
  call_tables con now (begins c) db = (with_tenant_transaction con (begin_attempt c now) db).1
  call_tables con now (preflights o count limit) db =
      (with_tenant_transaction con (mark_resource_preflight o count limit now) db).1
  call_tables con now (completes o result) db =
      (with_tenant_transaction con (mark_completed codec limits o result now) db).1
  call_tables con now (retries o info) db =
      (with_tenant_transaction con (mark_retryable o info now) db).1
  call_tables con now (fails o info result status) db =
      (with_tenant_transaction con (mark_failed codec limits o info result status now) db).1
  call_tables con now (rejects c message code) db =
      (with_tenant_transaction con (mark_rejected_message codec limits c message code now) db).1

  unfoldable pub history : List Event → Db → Db
  unfolding call_tables
  history [] db = db
  history (e ∷ es) db = history es (call_tables e.connection e.now e.call db)

-- The moves in the life of one scan.
pub data Move (v w : View) : Type 0 where
  takes : (n : ℕ) → is_terminal v.status ≡ false → w ≡ acquire n v → Move v w
  releases :
      v.status ≡ ScanStatus.in_progress
      → w ≡ record v { status = ScanStatus.pending; owner = none }
      → Move v w
  succeeds :
      v.status ≡ ScanStatus.in_progress
      → w ≡ bill consumed scan_consumed (record v { status = ScanStatus.done })
      → Move v w
  gives_up :
      v.status ≡ ScanStatus.in_progress
      → w ≡ bill refunded scan_refunded (record v { status = ScanStatus.failed })
      → Move v w
  refuses :
      v.status ≡ ScanStatus.pending
      → w ≡ bill refunded scan_refunded (record v { status = ScanStatus.failed; owner = none })
      → Move v w

-- A scan stays as it is, or makes one move.
pub data Life (v w : Option View) : Type 0 where
  stays : w ≡ v → Life v w
  moves : (a b : View) → v ≡ some a → w ≡ some b → Move a b → Life v w
