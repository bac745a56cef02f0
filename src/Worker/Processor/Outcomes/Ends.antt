-- ===== src/Worker/Processor/Outcomes/Ends.antt =====
-- The processing of a message from its delivery to its settlement, without and with a fault.
use bevoac_dev.Prelude.{
  ℕ, ◌≡◌, refl, ap, ◌∙◌, Bool, true, false, none, some, [], ◌∷◌, if◌then◌else◌,
}
use bevoac_dev.Prelude.Text.{Text}
use bevoac_dev.Database.{Db}
use bevoac_dev.Worker.Errors.{Outcome, ok, raised, Thrown, classify_worker_error, Report}
use bevoac_dev.Worker.Store.Transaction.{Tx, healthy}
use bevoac_dev.Worker.Store.Results.{ScanResult}
use bevoac_dev.Worker.Store.Marks.{Owner, mark_completed}
use bevoac_dev.Worker.Lifecycle.{view, owns_scan, at_scan, acquire, complete}
use bevoac_dev.Worker.Lifecycle.Begin.{grants}
use bevoac_dev.Worker.Lifecycle.Marks.{too_big, too_big_opt, mark_completed-refines}
use bevoac_dev.Worker.Processor.Exec.{World, Exec, completed, await, try_catch, ◌>>=◌}
use bevoac_dev.Worker.Processor.Environment.{
  Body, Content, valid, Message, Config, Answers, build_cross_tenant_credential, has_infra_modules,
}
use bevoac_dev.Worker.Providers.{ProviderStatus, assert_provider_runtime_enabled}
use bevoac_dev.Worker.Processor.Process.{
  audit_and_complete, work, main_path, recover, process_valid, process_content,
  process_scan_message,
}
use bevoac_dev.Worker.Processor.Outcomes.{
  bind-ok, commit_and_settle, failure_result, Settled, Settled-recover, mine,
}
use bevoac_dev.Worker.Processor.Outcomes.Starts.{claim, fresh_world, main_path-Started}

module _ (uuid_text : ℕ → Text) (cfg : Config) (answers : Answers) (message : Message)
    (body : Body) where
  abbrev own : Owner
  own = mine uuid_text cfg answers message body

  -- What follows an action that throws.
  bind-raised :
      {A : Type 0} (m : Exec A) (f : A → Exec (Unit {0})) (w w' : World) (e : Thrown)
      → m w ≡ (raised e, w')
      → (m >>= f) w ≡ (raised e, w')
  unfolding ◌>>=◌
  bind-raised {A} m f w w' e h =
      ap
        (λ (x : Outcome A × World). elim x.0 as (λ _. Outcome (Unit {0}) × World) [
          | ok b ↦ f b x.1
          | raised e ↦ (raised e, x.1)
        ])
        h

  -- A delivery that comes to the audit: it may have the scan and begins over a healthy connection, the
  -- provider is enabled, the credential is there, and no module calls for a count of resources.
  pub record Audits (db : Db) : Type 0 where
    pub valid_body : message.content ≡ valid body
    pub begins : answers.at_begin.connection ≡ healthy
    pub granted : grants (claim uuid_text cfg answers message body) db ≡ true
    pub status : ProviderStatus
    pub enabled : assert_provider_runtime_enabled body.cloud_provider ≡ ok status
    pub credential : Bool
    pub credentials : build_cross_tenant_credential cfg body.microsoft_tenant_id ≡ ok credential
    pub no_infra : has_infra_modules cfg body.modules ≡ false

  try-ok :
      {A : Type 0} (r : Outcome A) (h : Thrown → Exec A) (w : World) (a : A)
      → r ≡ ok a
      → try_catch (await r) h w ≡ (ok a, w)
  unfolding try_catch await
  try-ok {A} (ok b) h w a e = ap (λ (x : Outcome A). (x, w)) e
  try-ok (raised x) h w a e = cc

  await-ok : {A : Type 0} (r : Outcome A) (w : World) (a : A) → r ≡ ok a → await r w ≡ (ok a, w)
  unfolding await
  await-ok {A} r w a e = ap (λ (x : Outcome A). (x, w)) e

  on_false :
      (b : Bool) (m n : Exec (Unit {0})) (w : World) → b ≡ false → (if b then m else n) w ≡ n w
  on_false true m n w h = cc
  on_false false m n w h = refl

  work-Audits :
      (db : Db) (w : World)
      → Audits db
      → work uuid_text cfg answers message body w
        ≡ audit_and_complete uuid_text cfg answers message body none w
  unfolding work
  work-Audits db w a =
      bind-ok _ _ w w a.status (try-ok _ _ w _ a.enabled)
      ∙ (bind-ok _ _ w w a.credential (await-ok _ w _ a.credentials) ∙ on_false _ _ _ w a.no_infra)

  -- an audit that throws, and one whose result is stored
  audit-raised :
      (w : World) (e : Thrown)
      → answers.audit ≡ raised e
      → audit_and_complete uuid_text cfg answers message body none w ≡ (raised e, w)
  unfolding audit_and_complete await
  audit-raised w e h = bind-raised _ _ w w e (ap (λ (r : Outcome Report). (r, w)) h)

  abbrev pub result_of : Report → ScanResult
  result_of report = record { report = some report; preflight = none; error = none }

  abbrev done_call : Report → Tx Bool
  done_call report = mark_completed cfg.codec cfg.limits own (result_of report) answers.at_close.now

  audit-stored :
      (w : World) (report : Report)
      → answers.audit ≡ ok report
      → answers.at_close.connection ≡ healthy
      → answers.receiver_main ≡ none
      → owns_scan own (view w.db body.scan_id) ≡ true
      → too_big cfg.codec cfg.limits (result_of report) ≡ false
      → audit_and_complete uuid_text cfg answers message body none w
        ≡ (ok tt, record w { db = (done_call report w.db).1; settled = completed ∷ w.settled })
  unfolding audit_and_complete await
  audit-stored w report h con accepts owned fits =
      let (out, views) =
        mark_completed-refines cfg.codec cfg.limits own answers.at_close.now (result_of report)
          w.db in
      bind-ok _ _ w w report (ap (λ (r : Outcome Report). (r, w)) h)
      ∙ commit_and_settle answers.at_close.connection (done_call report) answers.receiver_main
          completed w con accepts (out ∙ rw (owned, fits) refl)

  -- the outer `try` and `catch`
  caught : Outcome (Unit {0}) × World → Outcome (Unit {0}) × World
  caught (ok u, w) = (ok u, w)
  caught (raised e, w) = recover uuid_text cfg answers message body e w

  process-caught :
      (db : Db)
      → message.content ≡ valid body
      → process_scan_message uuid_text cfg answers message db
        ≡ caught (
            main_path uuid_text cfg answers message body
              (fresh_world uuid_text cfg answers message body db))
  unfolding process_scan_message process_content process_valid try_catch caught
  process-caught db h =
      ap
        (λ (c : Content).
          process_content uuid_text cfg answers message c
            (fresh_world uuid_text cfg answers message body db))
        h
      ∙ go (
          main_path uuid_text cfg answers message body
            (fresh_world uuid_text cfg answers message body db))
    where
      go :
          (x : Outcome (Unit {0}) × World)
          → (elim x.0 as (λ _. Outcome (Unit {0}) × World) [
            | ok u ↦ (ok u, x.1)
            | raised e ↦ recover uuid_text cfg answers message body e x.1
          ])
            ≡ caught x
      go (ok u, w) = refl
      go (raised e, w) = refl

  -- A delivery that comes to the audit (a valid body, a scan that it may have and begins over a
  -- healthy connection, an enabled provider, a credential that is built without an error, and no
  -- module that calls for a count of resources), and whose audit throws, leaves scan and message as
  -- the class of the failure says, where the connection of the recovery is healthy, the receiver
  -- accepts and the stored error is not too large: a failure that may pass, with deliveries left,
  -- gives the scan back to PENDING without an owner and abandons the message; any other makes the
  -- scan FAILED and refunded once, and buries the message if its retries are exhausted or its
  -- provider is not enabled, and completes it otherwise. No other scan is touched.
  pub process-faulted :
      (db : Db) (e : Thrown)
      → Audits db
      → answers.audit ≡ raised e
      → answers.at_recovery.connection ≡ healthy
      → answers.receiver_recovery ≡ none
      → too_big_opt cfg.codec cfg.limits
          (some (failure_result uuid_text cfg answers message body (classify_worker_error e)))
        ≡ false
      → Settled uuid_text cfg answers message body
          (classify_worker_error e)
          (λ j. at_scan body.scan_id j (acquire answers.attempt_id) (view db j))
          []
          (process_scan_message uuid_text cfg answers message db)
  unfolding caught
  process-faulted db e a h con accepts fits =
      let (w, (st, run)) =
        main_path-Started uuid_text cfg answers message body db a.begins a.granted in
      let same =
        process-caught db a.valid_body
        ∙ ap caught (run ∙ (work-Audits db w a ∙ audit-raised w e h)) in
      let k =
        Settled-recover uuid_text cfg answers message body con accepts e w st.acquires st.owner_is
          fits in
      rw same (record {
        returns = k.returns;
        scan = λ j. k.scan j ∙ ap (at_scan body.scan_id j _) (st.views j);
        last = k.last;
        settles = k.settles ∙ ap (λ l. k.last ∷ l) st.unsettled;
        back = k.back;
        buried = k.buried;
      })

  -- A delivery that comes to the audit (a valid body, a scan that it may have and begins over a
  -- healthy connection, an enabled provider, a credential that is built without an error, and no
  -- module that calls for a count of resources), and whose audit succeeds, makes the scan DONE and
  -- charged once, and completes the message, once, where the connection is healthy, the receiver
  -- accepts and the result is not too large. No other scan is touched.
  pub process-audited :
      (db : Db) (report : Report)
      → Audits db
      → answers.audit ≡ ok report
      → answers.at_close.connection ≡ healthy
      → answers.receiver_main ≡ none
      → too_big cfg.codec cfg.limits (result_of report) ≡ false
      → let after = process_scan_message uuid_text cfg answers message db in
        (after.0 ≡ ok tt)
        × ((after.1.settled ≡ completed ∷ [])
            × ((j : ℕ)
                → view after.1.db j
                  ≡ at_scan body.scan_id j
                      (complete own)
                      (at_scan body.scan_id j (acquire answers.attempt_id) (view db j))))
  unfolding caught
  process-audited db report a h con accepts fits =
      let (w, (st, run)) =
        main_path-Started uuid_text cfg answers message body db a.begins a.granted in
      let same =
        process-caught db a.valid_body
        ∙ ap caught
            (run ∙ (work-Audits db w a ∙ audit-stored w report h con accepts st.owner_is fits)) in
      let (out, views) =
        mark_completed-refines cfg.codec cfg.limits own answers.at_close.now (result_of report)
          w.db in
      rw same (
        refl,
        (
          ap (λ l. completed ∷ l) st.unsettled,
          λ j. views j ∙ (rw fits refl ∙ ap (at_scan body.scan_id j (complete own)) (st.views j)),
        ),
      )
