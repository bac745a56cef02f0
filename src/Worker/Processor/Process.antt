-- ===== src/Worker/Processor/Process.antt =====
-- `processScanMessage` with `persistTerminalFailure`. Logging is left out, and no other worker writes
-- between the transactions of one run.
use bevoac_dev.Prelude.{
  ℕ, Bool, true, false, not, ◌&&◌, Option, none, some, [], ◌++◌, take, ltb, if◌then◌else◌,
}
use bevoac_dev.Prelude.Text.{Text, text, text_eq, truthy, decimal}
use bevoac_dev.Database.{Db, AttemptStatus, is_in_progress}
use bevoac_dev.Worker.Errors.{
  Outcome, Thrown, worker, WorkerFailure, PublicFailure, classify_worker_error,
  terminal_worker_error, public_failure_payload,
}
use bevoac_dev.Worker.Providers.{assert_provider_runtime_enabled}
use bevoac_dev.Worker.Store.Begin.{
  Claim, Begun, Current, scan_not_found, not_acquired, acquired, same_text, begin_attempt,
}
use bevoac_dev.Worker.Store.Marks.{
  Owner, ErrorInfo, mark_resource_preflight, mark_completed, mark_retryable, mark_failed,
}
use bevoac_dev.Worker.Store.Reject.{mark_rejected_message}
use bevoac_dev.Worker.Processor.Exec.{
  World, Exec, completed, abandoned, dead_lettered, pure, throw, await, transact, try_catch, settle,
  set_acquired, ◌>>=◌, ◌>>◌,
}
use bevoac_dev.Worker.Processor.Environment.{
  Body, Content, valid, invalid, Message, Config, Answers, resolve_resource_limit, retry_exhausted,
  has_infra_modules, build_cross_tenant_credential,
}

-- `message.messageId || scanId`: the text of the id stands in `fallback`
abbrev or_id : Option Text → Text → Option Text
or_id id fallback = if truthy id then id else some fallback

abbrev pub provider_code : Text
provider_code = text "PROVIDER_NOT_RUNTIME_ENABLED"

abbrev pub limit_code : Text
limit_code = text "RESOURCE_LIMIT_EXCEEDED"

abbrev limit_message : ℕ → ℕ → Text
limit_message count limit =
    text "Resource limit exceeded: " ++ (decimal count ++ (text "/" ++ (decimal limit ++ text ".")))

-- The text of a UUID is a parameter: it is only ever a message id.
module _ (uuid_text : ℕ → Text) (cfg : Config) (answers : Answers) (message : Message) where
  abbrev pub claim_of : (scan_id tenant_id : ℕ) → Claim
  claim_of scan_id tenant_id = record {
    scan_id = scan_id;
    tenant_id = tenant_id;
    attempt_id = answers.attempt_id;
    worker_name = some cfg.worker_name;
    message_id = or_id message.message_id (uuid_text scan_id);
    delivery_count = message.delivery_count;
  }

  -- whether the rejection was stored, or found the scan taken
  unfoldable pub persist_rejection : (scan_id tenant_id : ℕ) → Exec Bool
  persist_rejection scan_id tenant_id =
      try_catch
        (do
          owned ← transact answers.at_close.connection (
              mark_rejected_message cfg.codec cfg.limits (claim_of scan_id tenant_id)
                (some (text "The queued scan request failed contract validation."))
                (some (text "INVALID_SCAN_REQUEST")) answers.at_close.now)
          pure true)
        (λ e. pure false)

  -- A message that breaks the contract: its scan is rejected, if it names one, and the message goes to
  -- the dead letters, unless the rejection could not be stored.
  unfoldable pub process_invalid : Option (ℕ × ℕ) → Text → Exec (Unit {0})
  process_invalid identity errors =
      let bury =
        settle answers.receiver_main
          (dead_lettered (text "INVALID_SCAN_REQUEST") (take 4096 errors)) in
      elim identity [
        | none ↦ bury
        | some (scan_id, tenant_id) ↦ (do
          stored ← persist_rejection scan_id tenant_id
          if stored then bury else settle answers.receiver_last abandoned)
      ]

  module _ (body : Body) where
    abbrev pub owner : Owner
    owner = record {
      scan_id = body.scan_id;
      tenant_id = body.tenant_id;
      attempt_id = answers.attempt_id;
    }

    -- `sameMessageStillInProgress`
    abbrev pub still_mine : Current → Bool
    still_mine current =
        is_in_progress current.status
        && truthy current.message_id
        && truthy message.message_id
        && same_text current.message_id message.message_id

    -- the delivery did not get the scan
    unfoldable pub leave : Option Current → Exec (Unit {0})
    leave none = settle answers.receiver_main completed
    leave (some current) =
        settle answers.receiver_main (if still_mine current then abandoned else completed)

    -- what the call of `markFailed` stores beside the public failure
    abbrev pub info_of : PublicFailure → ErrorInfo
    info_of f = record {
      message = some f.message;
      code = some f.code;
      correlation_id = some answers.attempt_id;
    }

    -- More resources than the plan allows: a terminal failure that is no exception.
    unfoldable pub refuse_resources : (count limit : ℕ) → Exec (Unit {0})
    refuse_resources count limit =
        let failure : PublicFailure = record {
          code = limit_code;
          message = limit_message count limit;
          correlation_id = some answers.attempt_id;
          retryable = false;
        } in
        do
          owned ← transact answers.at_close.connection (
              mark_failed cfg.codec cfg.limits owner (info_of failure)
                (some (record {
                  report = none;
                  preflight = some (count, some limit);
                  error = some failure;
                }))
                AttemptStatus.attempt_failed answers.at_close.now)
          if owned then settle answers.receiver_main completed else pure tt

    -- the audit, and the storing of its result
    unfoldable pub audit_and_complete : Option (ℕ × Option ℕ) → Exec (Unit {0})
    audit_and_complete preflight = do
      report ← await answers.audit
      owned ← transact answers.at_close.connection (
          mark_completed cfg.codec cfg.limits owner
            (record { report = some report; preflight = preflight; error = none })
            answers.at_close.now)
      if owned then settle answers.receiver_main completed else pure tt

    abbrev pub over : ℕ → Option ℕ → Option ℕ
    over count none = none
    over count (some limit) = if ltb limit count then some limit else none

    unfoldable pub within_limit : ℕ → Option ℕ → Exec (Unit {0})
    within_limit count (some limit) = refuse_resources count limit
    within_limit count none =
        audit_and_complete (some (count, resolve_resource_limit cfg body.limits))

    unfoldable pub check_resources : Exec (Unit {0})
    check_resources = do
      count ← await answers.resource_count
      owned ← transact answers.at_preflight.connection (
          mark_resource_preflight owner count (resolve_resource_limit cfg body.limits)
            answers.at_preflight.now)
      if owned
          then within_limit count (over count (resolve_resource_limit cfg body.limits))
          else pure tt

    abbrev not_enabled : Thrown
    not_enabled = worker (
        terminal_worker_error (some provider_code)
          (some (text "The requested cloud provider is not enabled for this release.")) none)

    abbrev no_credential : Thrown
    no_credential = worker (
        terminal_worker_error (some (text "AZURE_CREDENTIAL_UNAVAILABLE"))
          (some (text "The verified Azure connection is unavailable or incomplete.")) none)

    -- the owner of the scan runs it
    unfoldable pub work : Exec (Unit {0})
    work = do
      enabled ←
          try_catch (await (assert_provider_runtime_enabled body.cloud_provider))
            (λ cause. throw not_enabled)
      credential ← await (build_cross_tenant_credential cfg body.microsoft_tenant_id)
      if has_infra_modules cfg body.modules
          then (if credential then check_resources else throw no_credential)
          else audit_and_complete none

    unfoldable pub proceed : Begun → Exec (Unit {0})
    proceed scan_not_found = leave none
    proceed (not_acquired current) = leave (some current)
    proceed (acquired again previous) = do set_acquired; work

    unfoldable pub main_path : Exec (Unit {0})
    main_path = do
      begun ←
          transact answers.at_begin.connection
            (begin_attempt (claim_of body.scan_id body.tenant_id) answers.at_begin.now)
      proceed begun

    -- `persistTerminalFailure`, and then the settlement if the attempt still owned its scan
    unfoldable pub persist_and_settle :
        WorkerFailure → AttemptStatus → (settlement : Exec (Unit {0})) → Exec (Unit {0})
    persist_and_settle failure status settlement =
        let public = public_failure_payload failure (some answers.attempt_id) in
        do
          owned ← transact answers.at_recovery.connection (
              mark_failed cfg.codec cfg.limits owner (info_of public)
                (some (record {
                  report = failure.cause_partial;
                  preflight = none;
                  error = some public;
                }))
                status answers.at_recovery.now)
          if owned then settlement else pure tt

    -- the inner `try` of the `catch` block
    unfoldable pub record_failure : WorkerFailure → Exec (Unit {0})
    record_failure failure =
        let public = public_failure_payload failure (some answers.attempt_id) in
        let settle_with = settle answers.receiver_recovery in
        if failure.retryable && not (retry_exhausted message.delivery_count cfg)
        then (do
          owned ←
              transact answers.at_recovery.connection
                (mark_retryable owner (info_of public) answers.at_recovery.now)
          if owned then settle_with abandoned else pure tt)
        else if failure.retryable
        then persist_and_settle failure AttemptStatus.dead_lettered (
            settle_with (
              dead_lettered (text "RETRY_EXHAUSTED")
                (take 4096 (public.code ++ (text ": " ++ public.message)))))
        else if text_eq failure.code provider_code
        then persist_and_settle failure AttemptStatus.dead_lettered
            (settle_with (dead_lettered public.code (take 4096 public.message)))
        else persist_and_settle failure AttemptStatus.attempt_failed (settle_with completed)

    -- the outer `catch` block
    unfoldable pub recover : Thrown → Exec (Unit {0})
    recover e w =
        (if w.acquired
            then try_catch (record_failure (classify_worker_error e))
                (λ persistence_error. settle answers.receiver_last abandoned)
            else settle answers.receiver_last abandoned)
          w

    unfoldable pub process_valid : Exec (Unit {0})
    process_valid = try_catch main_path recover

  -- one message, from tables `db`
  unfoldable pub process_content : Content → Exec (Unit {0})
  process_content (valid body) = process_valid body
  process_content (invalid identity errors) = process_invalid identity errors

  unfoldable pub process_scan_message : Db → Outcome (Unit {0}) × World
  unfolding process_content
  process_scan_message db =
      process_content message.content (record { db = db; settled = []; acquired = false })
