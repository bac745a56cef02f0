-- ===== src/Database.antt =====
-- The PostgreSQL tables that the API and the worker share, by primary key, with the SQL statements
-- that more than one operation uses. UUIDs are the numbers that they stand for, times are seconds,
-- amounts are cents, a quota month is the number of its first day. The columns `metadata` are
-- diagnostic: of them only the `reason` that an attempt records is kept.
use bevoac_dev.Prelude.{
  ℕ, Bool, true, false, ◌&&◌, Option, none, some, List, ◌==◌, holds, if◌then◌else◌,
}
use bevoac_dev.Prelude.Text.{Text}
use bevoac_dev.Prelude.Table.{Table, get, put}

pub data ScanStatus : Type 0 where
  pending in_progress done failed : ScanStatus

abbrev pub is_pending : ScanStatus → Bool
is_pending ScanStatus.pending = true
is_pending _ = false

abbrev pub is_in_progress : ScanStatus → Bool
is_in_progress ScanStatus.in_progress = true
is_in_progress _ = false

-- DONE and FAILED
abbrev pub is_terminal : ScanStatus → Bool
is_terminal ScanStatus.done = true
is_terminal ScanStatus.failed = true
is_terminal _ = false

pub data BillingState : Type 0 where
  reserved consumed refunded : BillingState

pub data AttemptStatus : Type 0 where
  started completed attempt_failed skipped retryable dead_lettered : AttemptStatus

abbrev pub is_started : AttemptStatus → Bool
is_started AttemptStatus.started = true
is_started _ = false

-- `metadata.reason` of an attempt
pub data Reason : Type 0 where
  scan_not_acquirable redelivered_after_unsettled redelivery_reclaim : Reason
  attempt_no_longer_owns scan_not_pending : Reason

pub data EventType : Type 0 where
  scan_reserved scan_consumed scan_refunded scan_blocked_quota adjustment credit : EventType

unfoldable pub event_eq : EventType → EventType → Bool
event_eq scan_reserved scan_reserved = true
event_eq scan_consumed scan_consumed = true
event_eq scan_refunded scan_refunded = true
event_eq scan_blocked_quota scan_blocked_quota = true
event_eq adjustment adjustment = true
event_eq credit credit = true
event_eq _ _ = false

-- `scans`
pub record ScanRow : Type 0 where
  pub tenant_id : ℕ
  pub cloud_provider : Text
  pub scan_profile : Text
  pub modules : List Text
  pub target_url : Option Text
  pub microsoft_tenant_id : Option Text
  pub subscriptions : List Text
  pub billing_units : ℕ
  pub is_quota_included : Bool
  pub quota_month : ℕ
  pub resource_limit : Option ℕ
  pub resource_count : Option ℕ
  pub status : ScanStatus
  pub processing_attempt_id : Option ℕ
  pub billing_state : BillingState
  pub billing_error : Option Text
  pub error_message : Option Text
  pub error_code : Option Text
  pub error_correlation_id : Option ℕ
  pub result_size_bytes : Option ℕ
  pub result_sha256 : Option Text
  pub started_at : Option ℕ
  pub completed_at : Option ℕ
  pub created_at : ℕ
  pub updated_at : ℕ

-- `scan_attempts`
pub record AttemptRow : Type 0 where
  pub scan_id : ℕ
  pub tenant_id : ℕ
  pub worker_name : Option Text
  pub message_id : Option Text
  pub delivery_count : Option ℕ
  pub status : AttemptStatus
  pub error_message : Option Text
  pub error_code : Option Text
  pub error_correlation_id : Option ℕ
  pub reason : Option Reason
  pub started_at : ℕ
  pub completed_at : Option ℕ

pub data Compression : Type 0 where
  plain_json gzip_base64 : Compression

-- `scan_results`
pub record ResultRow : Type 0 where
  pub tenant_id : ℕ
  pub result_json : Option Text
  pub result_gzip_base64 : Option Text
  pub compression : Compression
  pub size_bytes : ℕ
  pub sha256 : Text
  pub summary : Text
  pub created_at : ℕ
  pub updated_at : ℕ

-- `billing_usage_ledger`, which is only inserted into
pub record LedgerEntry : Type 0 where
  pub tenant_id : ℕ
  pub scan_id : Option ℕ
  pub event_type : EventType
  pub plan_code : Text
  pub quota_month : ℕ
  pub billing_units : ℕ
  pub unit_price : ℕ
  pub amount : ℕ
  pub cloud_provider : Option Text
  pub scan_profile : Option Text
  pub modules : List Text
  pub recorded_at : ℕ

-- The ledger holds its newest entry first.
pub record Db : Type 0 where
  pub scans : Table ScanRow
  pub attempts : Table AttemptRow
  pub results : Table ResultRow
  pub ledger : List LedgerEntry

-- COALESCE(column, value)
abbrev pub coalesce {ℓ} : {A : Type ℓ} → Option A → A → Option A
coalesce none v = some v
coalesce (some u) v = some u

-- a nullable number column = $n, where the parameter may be null too
abbrev pub holds_opt : Option ℕ → Option ℕ → Bool
holds_opt column none = false
holds_opt column (some n) = holds column n

-- SELECT … FROM scans WHERE id = $1 AND test
unfoldable pub select_scan : ℕ → (ScanRow → Bool) → Db → Option ScanRow
select_scan id test db = elim (get db.scans id) [
  | none ↦ none
  | some row ↦ if test row then some row else none
]

-- UPDATE scans SET … WHERE id = $1 AND test; the flag is `rowCount === 1`
unfoldable pub update_scan : ℕ → (ScanRow → Bool) → (ScanRow → ScanRow) → Db → Db × Bool
update_scan id test change db = elim (get db.scans id) [
  | none ↦ (db, false)
  | some row ↦
      if test row then (record db { scans = put id (change row) db.scans }, true) else (db, false)
]

-- UPDATE scan_attempts SET … WHERE attempt_id = $1 AND test
unfoldable pub update_attempt : ℕ → (AttemptRow → Bool) → (AttemptRow → AttemptRow) → Db → Db
update_attempt id test change db = elim (get db.attempts id) [
  | none ↦ db
  | some row ↦ if test row then record db { attempts = put id (change row) db.attempts } else db
]

-- INSERT INTO scan_attempts … ON CONFLICT (attempt_id) DO NOTHING
unfoldable pub insert_attempt_quiet : ℕ → AttemptRow → Db → Db
insert_attempt_quiet id row db = elim (get db.attempts id) [
  | none ↦ record db { attempts = put id row db.attempts }
  | some _ ↦ db
]

-- WHERE scan_id = $1 AND tenant_id = $2 AND event_type = $3 on the ledger
unfoldable pub is_event : ℕ → ℕ → EventType → LedgerEntry → Bool
unfolding event_eq
is_event scan_id tenant_id event e =
    holds e.scan_id scan_id && e.tenant_id == tenant_id && event_eq e.event_type event
