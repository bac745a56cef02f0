-- ===== src/Tests/Outbox.antt =====
-- The publication of one event.
use bevoac_dev.Prelude.{◌≤◌, ◌≡◌, refl, true, ◌||◌, none, some, [], ◌∷◌, length, All}
use bevoac_dev.Prelude.Text.{text}
use bevoac_dev.Prelude.Table.{get, put}
use bevoac_dev.Worker.Store.Transaction.{healthy}
use bevoac_dev.Api.Outbox.{
  EventRow, event_pending, claimable, candidates, insert_by_age, by_age, update_event, lock_all,
  claim_pending, mark_published, Outbox, RowAnswers, commit, publish_row, publish_rows,
  publish_pending,
}
use bevoac_dev.Api.Outbox.Publishes.{published_at, was_sent, publish_pending-sent}
use bevoac_dev.Api.Outbox.Claims.{IsDue, is_locked, claim_pending-locks}

abbrev event_row : EventRow
event_row = record {
  aggregate_id = 1;
  tenant_id = 7;
  payload = text "{}";
  status = event_pending;
  attempts = 0;
  next_attempt_at = some 100;
  locked_at = none;
  published_at = none;
  last_error = none;
  created_at = 100;
  updated_at = 100;
}

abbrev outbox : Outbox
outbox = record { rows = (4, event_row) ∷ []; sent = [] }

abbrev row_answers : RowAnswers
row_answers = record {
  sends = λ id. true;
  publish_connection = λ id. healthy;
  fail_connection = λ id. healthy;
  error_text = λ id. text "publish failed";
  now = 200;
}

event_published : published_at (publish_pending 15 25 10 row_answers outbox).1.rows 4 ≡ true
unfolding publish_pending publish_rows publish_row commit mark_published update_event claim_pending
    lock_all by_age insert_by_age candidates claimable get put
event_published = refl

publish_pending-sent_example :
    (published_at outbox.rows 4 || was_sent (publish_pending 15 25 10 row_answers outbox).1.sent 4)
    ≡ true
publish_pending-sent_example = publish_pending-sent 15 row_answers 25 10 outbox 4 event_published

claim_pending-locks_example :
    let (claimed, after) = claim_pending 25 10 200 outbox.rows in
    All (λ e. IsDue 10 200 e.1) claimed
    × ((length claimed ≤ 25) × All (λ e. is_locked 200 (get after e.0) ≡ true) claimed)
claim_pending-locks_example = claim_pending-locks 25 10 200 outbox.rows
