-- ===== src/Tests/Process.antt =====
-- The processing of one message of one scan.
use bevoac_dev.Prelude.{ℕ, ◌≡◌, refl, true, false, not, ◌||◌, none, [], ◌∷◌}
use bevoac_dev.Prelude.Text.{text, text_eq, Text, utf8_length}
use bevoac_dev.Prelude.Table.{get}
use bevoac_dev.Database.{Db, AttemptStatus}
use bevoac_dev.Worker.Errors.{Outcome, ok, raised, js, classify_worker_error}
use bevoac_dev.Worker.Providers.{
  assert_provider_runtime_enabled, get_provider_status, normalize_provider,
}
use bevoac_dev.Worker.Store.Begin.{new_attempt, is_redelivery, current_attempt}
use bevoac_dev.Worker.Lifecycle.{view, at_scan, acquire, complete}
use bevoac_dev.Worker.Lifecycle.Begin.{may_begin, grants}
use bevoac_dev.Worker.Processor.Exec.{completed}
use bevoac_dev.Worker.Processor.Environment.{build_cross_tenant_credential, has_infra_modules}
use bevoac_dev.Worker.Processor.Process.{process_scan_message}
use bevoac_dev.Worker.Processor.Settles.{SafeLeave}
use bevoac_dev.Worker.Processor.Settles.Returned.{under_way, Yields}
use bevoac_dev.Worker.Processor.Settles.Once.{process-SafeLeave}
use bevoac_dev.Worker.Processor.Outcomes.{Settled}
use bevoac_dev.Worker.Processor.Outcomes.Ends.{Audits, process-audited, process-faulted}
use bevoac_dev.Tests.Data.{
  pending_db, running_db, claim, cfg, answers, message, body, uuid_text, throttled,
}

-- an earlier delivery of the message is at work on the scan
abbrev redelivered_db : Db
redelivered_db = record running_db {
  attempts =
      (50, new_attempt (record claim { attempt_id = 50 }) AttemptStatus.started none none 150) ∷ [];
}

redelivered :
    (may_begin claim redelivered_db || not (under_way redelivered_db 1 7 message.message_id))
    ≡ false
unfolding may_begin get is_redelivery current_attempt new_attempt text_eq
redelivered = refl

process-SafeLeave_example :
    let after =
      (process_scan_message uuid_text cfg (answers (ok (text "{}"))) message redelivered_db).1 in
    SafeLeave 1 7 after
    × Yields uuid_text cfg (answers (ok (text "{}"))) message body redelivered_db after
process-SafeLeave_example =
    process-SafeLeave uuid_text cfg (answers (ok (text "{}"))) message body refl redelivered_db

audits : (audit : Outcome Text) → Audits uuid_text cfg (answers audit) message body pending_db
unfolding grants may_begin get assert_provider_runtime_enabled get_provider_status
    normalize_provider build_cross_tenant_credential has_infra_modules
audits audit = record {
  valid_body = refl;
  begins = refl;
  granted = refl;
  status = _;
  enabled = refl;
  credential = true;
  credentials = refl;
  no_infra = refl;
}

process-audited_example :
    let after = process_scan_message uuid_text cfg (answers (ok (text "{}"))) message pending_db in
    (after.0 ≡ ok tt)
    × ((after.1.settled ≡ completed ∷ [])
        × ((j : ℕ)
            → view after.1.db j
              ≡ at_scan 1 j
                  (complete (record { scan_id = 1; tenant_id = 7; attempt_id = 51 }))
                  (at_scan 1 j (acquire 51) (view pending_db j))))
unfolding utf8_length
process-audited_example =
    process-audited uuid_text cfg (answers (ok (text "{}"))) message body pending_db (text "{}")
      (audits (ok (text "{}"))) refl refl refl refl

process-faulted_example :
    Settled uuid_text cfg
      (answers (raised (js throttled)))
      message
      body
      (classify_worker_error (js throttled))
      (λ j. at_scan 1 j (acquire 51) (view pending_db j))
      []
      (process_scan_message uuid_text cfg (answers (raised (js throttled))) message pending_db)
unfolding utf8_length
process-faulted_example =
    process-faulted uuid_text cfg (answers (raised (js throttled))) message body pending_db
      (js throttled) (audits (raised (js throttled))) refl refl refl refl
