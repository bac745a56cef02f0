-- ===== src/Worker/Store/Begin.antt =====
-- scan-store.js: `beginAttempt`, by which a delivery takes the ownership of its scan.
use bevoac_dev.Prelude.{
  ℕ, Bool, false, ◌&&◌, ◌||◌, Option, none, some, ◌==◌, ltb, is_some, if◌then◌else◌,
}
use bevoac_dev.Prelude.Text.{Text, text, text_eq, truthy, or_null}
use bevoac_dev.Prelude.Table.{get, put}
use bevoac_dev.Database.{
  Db, ScanStatus, AttemptStatus, Reason, ScanRow, AttemptRow, is_pending, is_in_progress,
  is_started, scan_not_acquirable, redelivered_after_unsettled, redelivery_reclaim, coalesce,
  holds_opt, select_scan, update_scan, update_attempt, insert_attempt_quiet,
}
use bevoac_dev.Worker.Errors.{ok, raised, Thrown}
use bevoac_dev.Worker.Store.Transaction.{Tx, plain_error}

-- the arguments of `beginAttempt`
pub record Claim : Type 0 where
  pub scan_id : ℕ
  pub tenant_id : ℕ
  pub attempt_id : ℕ
  pub worker_name : Option Text
  pub message_id : Option Text
  pub delivery_count : Option ℕ

-- LEFT JOIN scan_attempts a ON a.attempt_id = s.processing_attempt_id AND a.scan_id = s.id AND
-- a.tenant_id = s.tenant_id
unfoldable pub current_attempt : Db → ℕ → ScanRow → Option AttemptRow
current_attempt db scan_id row = elim row.processing_attempt_id [
  | none ↦ none
  | some a ↦ elim (get db.attempts a) [
    | none ↦ none
    | some r ↦ if r.scan_id == scan_id && r.tenant_id == row.tenant_id then some r else none
  ]
]

-- `Number.isInteger(Number(x)) ? Number(x) : null`, where `Number(null)` is 0
abbrev pub integer_of : Option ℕ → Option ℕ
integer_of none = some 0
integer_of (some n) = some n

abbrev pub same_text : Option Text → Option Text → Bool
same_text none b = false
same_text (some a) none = false
same_text (some a) (some b) = text_eq a b

abbrev pub grows : Option ℕ → Option ℕ → Bool
grows none incoming = false
grows (some previous) none = false
grows (some previous) (some incoming) = ltb previous incoming

abbrev pub joined_message : Option AttemptRow → Option Text
joined_message none = none
joined_message (some r) = r.message_id

abbrev pub joined_delivery : Option AttemptRow → Option ℕ
joined_delivery none = none
joined_delivery (some r) = r.delivery_count

-- The same message comes again, by a later delivery, while its earlier attempt is unsettled.
unfoldable pub is_redelivery : Claim → ScanRow → Option AttemptRow → Bool
is_redelivery c row joined =
    is_in_progress row.status
    && is_some row.processing_attempt_id
    && truthy c.message_id
    && truthy (joined_message joined)
    && same_text c.message_id (joined_message joined)
    && grows (integer_of (joined_delivery joined)) (integer_of c.delivery_count)

pub record Current : Type 0 where
  pub status : ScanStatus
  pub processing_attempt_id : Option ℕ
  pub message_id : Option Text

-- what `beginAttempt` returns
pub data Begun : Type 0 where
  scan_not_found : Begun
  not_acquired : Current → Begun
  acquired : (reclaimed : Bool) (previous : Option ℕ) → Begun

unfoldable pub new_attempt : Claim → AttemptStatus → Option Reason → Option ℕ → ℕ → AttemptRow
new_attempt c status reason completed_at now = record {
  scan_id = c.scan_id;
  tenant_id = c.tenant_id;
  worker_name = or_null c.worker_name;
  message_id = or_null c.message_id;
  delivery_count = integer_of c.delivery_count;
  status = status;
  error_message = none;
  error_code = none;
  error_correlation_id = none;
  reason = reason;
  started_at = now;
  completed_at = completed_at;
}

-- UPDATE scan_attempts SET status = 'RETRYABLE' … WHERE attempt_id = $1 AND status = 'STARTED'
unfoldable pub supersede : Option ℕ → ℕ → Db → Db
unfolding update_attempt
supersede none now db = db
supersede (some a) now db =
    update_attempt a (λ r. is_started r.status)
      (λ r. record r {
        status = AttemptStatus.retryable;
        reason = some redelivered_after_unsettled;
        completed_at = coalesce r.completed_at now;
      })
      db

-- the row of an acquired scan
abbrev pub owned_row : ℕ → ℕ → ScanRow → ScanRow
owned_row attempt_id now r = record r {
  status = ScanStatus.in_progress;
  started_at = coalesce r.started_at now;
  updated_at = now;
  error_message = none;
  error_code = none;
  error_correlation_id = none;
  processing_attempt_id = some attempt_id;
}

-- the WHERE clause of the acquiring UPDATE, with the owner that was read before
abbrev pub may_acquire : ℕ → Option ℕ → ScanRow → Bool
may_acquire tenant_id owner r =
    r.tenant_id == tenant_id
    && (is_pending r.status || (is_in_progress r.status && holds_opt r.processing_attempt_id owner))

-- what the server answers when a primary key is there
abbrev pub unique_violation : Thrown
unique_violation =
    plain_error (some (text "23505")) (text "duplicate key value violates unique constraint")

-- INSERT of the STARTED attempt; the primary key refuses an id that is there
unfoldable pub insert_started : Claim → Bool → Option ℕ → ℕ → Tx Begun
unfolding new_attempt
insert_started c again previous now db =
    let row =
      new_attempt c AttemptStatus.started (if again then some redelivery_reclaim else none) none
        now in
    elim (get db.attempts c.attempt_id) [
      | none ↦
          (ok (acquired again previous), record db { attempts = put c.attempt_id row db.attempts })
      | some _ ↦ (raised unique_violation, db)
    ]

unfoldable pub acquire_scan : Claim → Bool → Option ℕ → ℕ → Tx Begun
acquire_scan c again owner now db =
    let ready : Db = if again then supersede owner now db else db in
    let (updated, hit) =
      update_scan c.scan_id (may_acquire c.tenant_id owner) (owned_row c.attempt_id now) ready in
    if hit then insert_started c again owner now updated else (
      raised (plain_error none (text "The scan attempt could not acquire the locked scan row.")),
      updated,
    )

unfoldable pub skip_attempt : Claim → ℕ → Db → Db
unfolding insert_attempt_quiet new_attempt
skip_attempt c now =
    insert_attempt_quiet c.attempt_id
      (new_attempt c AttemptStatus.skipped (some scan_not_acquirable) (some now) now)

unfoldable pub begin_attempt : Claim → ℕ → Tx Begun
begin_attempt c now db = elim (select_scan c.scan_id (λ r. r.tenant_id == c.tenant_id) db) [
  | none ↦ (ok scan_not_found, db)
  | some row ↦
      let joined = current_attempt db c.scan_id row in
      let again = is_redelivery c row joined in
      if is_pending row.status || again
      then acquire_scan c again row.processing_attempt_id now db
      else (
        ok (
            not_acquired (record {
              status = row.status;
              processing_attempt_id = row.processing_attempt_id;
              message_id = joined_message joined;
            })),
        skip_attempt c now db,
      )
]
