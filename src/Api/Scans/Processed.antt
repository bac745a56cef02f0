-- ===== src/Api/Scans/Processed.antt =====
-- A scan from the customer's request to its end in the worker.
use bevoac_dev.Prelude.{ℕ, ◌≡◌, refl, sym, ◌∙◌, false, none, some, [], ◌∷◌, arith, eq_refl}
use bevoac_dev.Prelude.Text.{Text}
use bevoac_dev.Database.{ScanStatus, scan_consumed, scan_refunded, event_eq}
use bevoac_dev.Worker.Errors.{ok, Report}
use bevoac_dev.Worker.Store.Transaction.{healthy}
use bevoac_dev.Worker.Store.Marks.{Owner}
use bevoac_dev.Worker.Lifecycle.{View, view, acquire, complete, count_events}
use bevoac_dev.Worker.Lifecycle.Marks.{too_big}
use bevoac_dev.Worker.Lifecycle.Steps.Accounts.{IsAccounted}
use bevoac_dev.Worker.Processor.Exec.{completed}
use bevoac_dev.Worker.Processor.Environment.{Body, Message, Config, Answers}
use bevoac_dev.Worker.Processor.Process.{process_scan_message}
use bevoac_dev.Worker.Processor.Outcomes.{mine}
use bevoac_dev.Worker.Processor.Outcomes.Ends.{Audits, result_of, process-audited}
use bevoac_dev.Api.Errors.{returned}
use bevoac_dev.Api.Scans.{ApiDb, Tools, ScanRequest, Draws}
use bevoac_dev.Api.Scans.Create.{CreatedScan, created, Fate, create_scan_request}
use bevoac_dev.Api.Scans.Created.{create_scan_request-Accounted}

-- An open scan that its new owner completes has the accounts of a DONE one.
complete-IsAccounted :
    (o : Owner) (v : View)
    → v.tenant_id ≡ o.tenant_id
    → v.status ≡ ScanStatus.pending
    → IsAccounted v
    → let w = complete o (acquire o.attempt_id v) in (w.status ≡ ScanStatus.done) × IsAccounted w
unfolding event_eq
complete-IsAccounted o v t p a = (ground arith, ground arith)

-- A request that is answered with a new scan, and then a delivery of its message that comes to the
-- audit (a valid body, a scan that it may have and begins over a healthy connection, an enabled
-- provider, a credential that is built without an error, and no module that calls for a count of
-- resources) without a fault, leave the scan DONE, with accounts that agree with it (reserved,
-- charged once, not refunded), and the message completed once. The ledger had no closing entry of
-- the new id, the message names the scan and its customer, its audit succeeds, the connections are
-- healthy, the receiver accepts, and the result is not too large.
pub create_scan_request-processed :
    (tools : Tools) (q : ScanRequest) (draws : Draws) (fate : Fate) (race : ApiDb → ApiDb)
    (db after : ApiDb) (c : CreatedScan) (uuid_text : ℕ → Text) (cfg : Config) (answers : Answers)
    (message : Message) (body : Body) (report : Report)
    → create_scan_request tools q draws fate race db ≡ (returned (created c), after)
    → count_events draws.scan_id q.tenant_id scan_consumed db.shared.ledger ≡ 0
    → count_events draws.scan_id q.tenant_id scan_refunded db.shared.ledger ≡ 0
    → body.scan_id ≡ c.scan_id
    → body.tenant_id ≡ q.tenant_id
    → Audits uuid_text cfg answers message body after.shared
    → answers.audit ≡ ok report
    → answers.at_close.connection ≡ healthy
    → answers.receiver_main ≡ none
    → too_big cfg.codec cfg.limits (result_of uuid_text cfg answers message body report) ≡ false
    → let y = process_scan_message uuid_text cfg answers message after.shared in
      (y.1.settled ≡ completed ∷ [])
      × ((v : View) × ((view y.1.db c.scan_id ≡ some v)
            × ((v.status ≡ ScanStatus.done) × IsAccounted v)))
create_scan_request-processed tools q draws fate race db after c uuid_text cfg answers message body
      report h charges refunds s t a audit con accepts fits =
    let (fresh, (v, (there, ((open_scan, tenant), accounts)))) =
      create_scan_request-Accounted tools q draws fate race db after c h charges refunds in
    let (returns, (settles, views)) =
      process-audited uuid_text cfg answers message body after.shared report a audit con accepts
        fits in
    let o = mine uuid_text cfg answers message body in
    let (done, kept) = complete-IsAccounted o v (tenant ∙ sym t) open_scan accounts in
    (
      settles,
      (
        complete o (acquire answers.attempt_id v),
        (views c.scan_id ∙ rw (s, eq_refl c.scan_id, there) refl, (done, kept)),
      ),
    )
