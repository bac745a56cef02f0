-- ===== src/Api/Outbox.antt =====
-- services/outbox-service.js of the API: the queue table between the transaction that creates a scan and
-- Service Bus. Every row has the event type scan.requested. Logging is left out.
pub mod Publishes
pub mod Claims
use bevoac_dev.Prelude.{
  ℕ, ◌+◌, ◌*◌, ◌^◌, min, Bool, true, false, ◌&&◌, ◌||◌, Option, none, some, List, [], ◌∷◌, ◌++◌,
  take, length, ltb, leb, ◌==◌, if◌then◌else◌, is_some,
}
use bevoac_dev.Prelude.Text.{Text, text}
use bevoac_dev.Prelude.Table.{Table, get, put}
use bevoac_dev.Worker.Errors.{Outcome, ok, raised, Thrown}
use bevoac_dev.Worker.Store.Transaction.{Connection, healthy, before_commit, after_commit}

pub data EventStatus : Type 0 where
  event_pending processing published event_failed : EventStatus

abbrev pub is_published : EventStatus → Bool
is_published published = true
is_published _ = false

-- a row of outbox_events; the payload is the message, and its scan is the aggregate
pub record EventRow : Type 0 where
  pub aggregate_id : ℕ
  pub tenant_id : ℕ
  pub payload : Text
  pub status : EventStatus
  pub attempts : ℕ
  pub next_attempt_at : Option ℕ
  pub locked_at : Option ℕ
  pub published_at : Option ℕ
  pub last_error : Option Text
  pub created_at : ℕ
  pub updated_at : ℕ

-- the id of the row of an aggregate
unfoldable pub find_aggregate : ℕ → Table EventRow → Option ℕ
find_aggregate aggregate [] = none
find_aggregate aggregate ((id, r) ∷ rest) =
    let later = find_aggregate aggregate rest in
    if r.aggregate_id == aggregate then some id else later

-- `enqueueScanRequested`: INSERT … ON CONFLICT (event_type, aggregate_id) DO UPDATE, with the id that
-- the server draws for a new row; null where the primary key refuses that id
unfoldable pub enqueue_scan_requested :
    (new_id scan_id tenant_id : ℕ) → Text → (now : ℕ) → Table EventRow → Option (Table EventRow)
unfolding find_aggregate
enqueue_scan_requested new_id scan_id tenant_id message now rows =
    let fresh : EventRow = record {
      aggregate_id = scan_id;
      tenant_id = tenant_id;
      payload = message;
      status = event_pending;
      attempts = 0;
      next_attempt_at = some now;
      locked_at = none;
      published_at = none;
      last_error = none;
      created_at = now;
      updated_at = now;
    } in
    let inserted : Option (Table EventRow) =
      if is_some (get rows new_id) then none else some (put new_id fresh rows) in
    elim (find_aggregate scan_id rows) [
      | none ↦ inserted
      | some id ↦ elim (get rows id) [
        | none ↦ inserted
        | some r ↦ some (
            put id
              (record r {
                payload = message;
                status = if is_published r.status then r.status else event_pending;
                next_attempt_at = if is_published r.status then r.next_attempt_at else some now;
                updated_at = now;
              })
              rows)
      ]
    ]

-- locked_at < NOW() - INTERVAL '10 minutes'
abbrev pub is_stale : Option ℕ → ℕ → Bool
is_stale none now = false
is_stale (some t) now = ltb (t + 600) now

-- the WHERE clause of `claimPending`: PENDING or FAILED, or PROCESSING for ten minutes; attempts left;
-- and due
unfoldable pub claimable : ℕ → ℕ → EventRow → Bool
claimable max_attempts now r =
    (elim r.status [
      | event_pending ↦ true
      | event_failed ↦ true
      | processing ↦ is_stale r.locked_at now
      | published ↦ false
    ])
    && (ltb r.attempts max_attempts && elim r.next_attempt_at [ none ↦ true | some t ↦ leb t now ])

unfoldable pub candidates : ℕ → ℕ → Table EventRow → List (ℕ × EventRow)
unfolding claimable
candidates max_attempts now [] = []
candidates max_attempts now ((id, r) ∷ rest) =
    let later = candidates max_attempts now rest in
    if claimable max_attempts now r then (id, r) ∷ later else later

-- ORDER BY created_at ASC
unfoldable pub insert_by_age : ℕ × EventRow → List (ℕ × EventRow) → List (ℕ × EventRow)
insert_by_age e [] = e ∷ []
insert_by_age e (f ∷ rest) =
    let later = insert_by_age e rest in
    if leb e.1.created_at f.1.created_at then e ∷ (f ∷ rest) else f ∷ later

unfoldable pub by_age : List (ℕ × EventRow) → List (ℕ × EventRow)
unfolding insert_by_age
by_age [] = []
by_age (e ∷ rest) = insert_by_age e (by_age rest)

-- UPDATE outbox_events … WHERE id = $1
unfoldable pub update_event : ℕ → (EventRow → EventRow) → Table EventRow → Table EventRow
update_event id change rows = elim (get rows id) [ none ↦ rows | some r ↦ put id (change r) rows ]

unfoldable pub lock_all : ℕ → List (ℕ × EventRow) → Table EventRow → Table EventRow
unfolding update_event
lock_all now [] rows = rows
lock_all now ((id, r) ∷ rest) rows = lock_all now rest (
    update_event id (λ r. record r { status = processing; locked_at = some now; updated_at = now })
      rows)

-- `claimPending`: the claimed rows, and the table after it. No other publisher holds a lock (SKIP LOCKED
-- skips none).
unfoldable pub claim_pending :
    (limit max_attempts now : ℕ) → Table EventRow → List (ℕ × EventRow) × Table EventRow
unfolding candidates by_age lock_all
claim_pending limit max_attempts now rows =
    let claimed = take limit (by_age (candidates max_attempts now rows)) in
    (claimed, lock_all now claimed rows)

unfoldable pub mark_published : (id now : ℕ) → Table EventRow → Table EventRow
unfolding update_event
mark_published id now = update_event id (λ r. record r {
  status = published;
  published_at = some now;
  locked_at = none;
  last_error = none;
  updated_at = now;
})

-- `markFailed`: LEAST(3600, base * POWER(2, attempts)), with the attempts before the failure
unfoldable pub backoff_seconds : (base attempts : ℕ) → ℕ
backoff_seconds base attempts = min 3600 (base * 2 ^ attempts)

unfoldable pub mark_event_failed :
    (base id : ℕ) → Text → (now : ℕ) → Table EventRow → Table EventRow
unfolding update_event backoff_seconds
mark_event_failed base id error now = update_event id (λ r. record r {
  status = event_failed;
  attempts = r.attempts + 1;
  locked_at = none;
  last_error = some (take 4000 error);
  next_attempt_at = some (now + backoff_seconds base r.attempts);
  updated_at = now;
})

-- the table, and the ids of the events sent to the queue, newest first
pub record Outbox : Type 0 where
  pub rows : Table EventRow
  pub sent : List ℕ

-- For a row: whether the queue takes its message, the two transactions, and the text of the error.
pub record RowAnswers : Type 0 where
  pub sends : ℕ → Bool
  pub publish_connection : ℕ → Connection
  pub fail_connection : ℕ → Connection
  pub error_text : ℕ → Text
  pub now : ℕ

-- BEGIN, a change of the table, COMMIT: whether it returns, and the table after it
unfoldable pub commit :
    Connection → (Table EventRow → Table EventRow) → Table EventRow → Bool × Table EventRow
commit healthy change rows = (true, change rows)
commit (before_commit e) change rows = (false, rows)
commit (after_commit e) change rows = (false, change rows)

-- the `catch` block of a row; a failure of its own is only logged
unfoldable pub record_publish_failure : ℕ → RowAnswers → ℕ → Table EventRow → Table EventRow
unfolding commit mark_event_failed
record_publish_failure base a id rows =
    (commit (a.fail_connection id) (mark_event_failed base id (a.error_text id) a.now) rows).1

-- The body of the loop, for the row `id`: whether it counts as published.
unfoldable pub publish_row : ℕ → RowAnswers → ℕ → Outbox → Bool × Outbox
unfolding commit record_publish_failure mark_published
publish_row base a id s =
    let (committed, rows) = commit (a.publish_connection id) (mark_published id a.now) s.rows in
    if a.sends id
    then (if committed
        then (true, record { rows = rows; sent = id ∷ s.sent })
        else (false, record { rows = record_publish_failure base a id rows; sent = id ∷ s.sent }))
    else (false, record { rows = record_publish_failure base a id s.rows; sent = s.sent })

pub record Stats : Type 0 where
  pub claimed : ℕ
  pub published_count : ℕ
  pub failed_count : ℕ
  pub scan_ids : List ℕ

-- the loop, with the statistics so far
unfoldable pub publish_rows : ℕ → RowAnswers → List (ℕ × EventRow) → Stats × Outbox → Stats × Outbox
unfolding publish_row
publish_rows base a [] s = s
publish_rows base a ((id, r) ∷ rest) (st, s) =
    let (done, s') = publish_row base a id s in
    publish_rows base a rest (
      (if done
          then record st {
            published_count = st.published_count + 1;
            scan_ids = st.scan_ids ++ (r.aggregate_id ∷ []);
          }
          else record st { failed_count = st.failed_count + 1 }),
      s',
    )

-- `publishPending`, once its claim is committed
unfoldable pub publish_pending :
    (base limit max_attempts : ℕ) → RowAnswers → Outbox → Stats × Outbox
unfolding claim_pending publish_rows
publish_pending base limit max_attempts a s =
    let (claimed, rows) = claim_pending limit max_attempts a.now s.rows in
    publish_rows base a claimed (
      record { claimed = length claimed; published_count = 0; failed_count = 0; scan_ids = [] },
      record s { rows = rows },
    )
