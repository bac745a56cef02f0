-- ===== src/Api/Scans/Created.antt =====
-- What a new scan is: for the worker that will take it, for the publisher of its message, and for the
-- quota of its tenant.
use bevoac_dev.Prelude.{
  ℕ, suc, ◌≤◌, ◌<◌, ◌≡◌, refl, sym, ap, ◌∙◌, true, false, none, some, ◌∷◌, ◌==◌, get_or, arith,
  eq_refl,
}
use bevoac_dev.Prelude.Text.{Text}
use bevoac_dev.Prelude.Table.{Table, get, put, get-put}
use bevoac_dev.Database.{
  Db, ScanStatus, reserved, scan_reserved, scan_consumed, scan_refunded, event_eq, is_event,
  is_pending,
}
use bevoac_dev.Worker.Lifecycle.{View, view, view_row, count_events, owns_scan}
use bevoac_dev.Worker.Lifecycle.Steps.Accounts.{IsAccounted}
use bevoac_dev.Worker.Store.Transaction.{healthy, with_tenant_transaction}
use bevoac_dev.Worker.Store.Begin.{Claim, begin_attempt}
use bevoac_dev.Worker.Store.Marks.{Owner}
use bevoac_dev.Worker.Lifecycle.Begin.{
  is_acquired, grants, may_begin-pending, begin_attempt-refines,
}
use bevoac_dev.Api.Errors.{returned}
use bevoac_dev.Api.Contract.{Azure}
use bevoac_dev.Api.Billing.{Authorization, usage}
use bevoac_dev.Api.Billing.Quotas.{authorize_scan-within_quota, authorize_scan-accepted}
use bevoac_dev.Api.Outbox.{
  EventRow, event_pending, find_aggregate, enqueue_scan_requested, claimable,
}
use bevoac_dev.Api.Scans.{ApiDb, Tools, ScanRequest, Draws}
use bevoac_dev.Api.Scans.Create.{
  CreatedScan, created, billing_request, build_scan_requested_message, new_scan, reservation_entry,
  Fate, create_scan_request,
}
use bevoac_dev.Api.Scans.Traces.{create-Creation}

-- the tables with a new scan and its entry
abbrev with_scan : ScanRequest → Azure → Authorization → Draws → Db → Db
with_scan q azure a draws db = record db {
  scans = put draws.scan_id (new_scan q azure a draws) db.scans;
  ledger = reservation_entry q a draws ∷ db.ledger;
}

view-with_scan :
    (q : ScanRequest) (azure : Azure) (a : Authorization) (draws : Draws) (db : Db)
    → view (with_scan q azure a draws db) draws.scan_id
      ≡ some (record {
        tenant_id = q.tenant_id;
        status = ScanStatus.pending;
        owner = none;
        billing = reserved;
        reservations = suc (count_events draws.scan_id q.tenant_id scan_reserved db.ledger);
        consumptions = count_events draws.scan_id q.tenant_id scan_consumed db.ledger;
        refunds = count_events draws.scan_id q.tenant_id scan_refunded db.ledger;
      })
unfolding view view_row count_events is_event event_eq reservation_entry new_scan
view-with_scan q azure a draws db =
    ground (arith, get-put draws.scan_id draws.scan_id (new_scan q azure a draws) db.scans)

view-with_scan_other :
    (q : ScanRequest) (azure : Azure) (a : Authorization) (draws : Draws) (db : Db) (j : ℕ)
    → (draws.scan_id == j) ≡ false
    → view (with_scan q azure a draws db) j ≡ view db j
unfolding view view_row count_events is_event reservation_entry
view-with_scan_other q azure a draws db j h =
    ground (arith, get-put draws.scan_id j (new_scan q azure a draws) db.scans)

-- A request that is answered with a new scan has written it under a new id: PENDING, with no owner,
-- and with accounts that agree with its status, if the ledger has no closing entry of that id.
pub create_scan_request-Accounted :
    (tools : Tools) (q : ScanRequest) (draws : Draws) (fate : Fate) (race : ApiDb → ApiDb)
    (db after : ApiDb) (c : CreatedScan)
    → create_scan_request tools q draws fate race db ≡ (returned (created c), after)
    → count_events draws.scan_id q.tenant_id scan_consumed db.shared.ledger ≡ 0
    → count_events draws.scan_id q.tenant_id scan_refunded db.shared.ledger ≡ 0
    → (view db.shared c.scan_id ≡ none)
      × ((v : View) × ((view after.shared c.scan_id ≡ some v)
            × (((v.status ≡ ScanStatus.pending) × (v.tenant_id ≡ q.tenant_id)) × IsAccounted v)))
unfolding view
create_scan_request-Accounted tools q draws fate race db after c h charges refunds =
    let k = create-Creation tools q draws fate race db after c h in
    let w = k.written in
    rw (ap (λ x. x.scan_id) w.answer, w.shared)
      (
        rw (w.fresh, view) refl,
        (
          _,
          (
            view-with_scan q k.azure k.authorization draws db.shared,
            (
              (refl, refl),
              record {
                is_reserved = omega arith;
                billing = refl;
                charges = charges;
                refunds = refunds;
                unowned = λ p. refl;
              },
            ),
          ),
        ),
      )

-- A request that is answered with a new scan leaves every other scan as it is.
pub create_scan_request-others :
    (tools : Tools) (q : ScanRequest) (draws : Draws) (fate : Fate) (race : ApiDb → ApiDb)
    (db after : ApiDb) (c : CreatedScan) (j : ℕ)
    → create_scan_request tools q draws fate race db ≡ (returned (created c), after)
    → (draws.scan_id == j) ≡ false
    → view after.shared j ≡ view db.shared j
create_scan_request-others tools q draws fate race db after c j h e =
    let k = create-Creation tools q draws fate race db after c h in
    ap (λ t. view t j) k.written.shared
    ∙ view-with_scan_other q k.azure k.authorization draws db.shared j e

new_view : ScanRequest → Draws → Db → View
new_view q draws db = record {
  tenant_id = q.tenant_id;
  status = ScanStatus.pending;
  owner = none;
  billing = reserved;
  reservations = suc (count_events draws.scan_id q.tenant_id scan_reserved db.ledger);
  consumptions = count_events draws.scan_id q.tenant_id scan_consumed db.ledger;
  refunds = count_events draws.scan_id q.tenant_id scan_refunded db.ledger;
}

-- A PENDING scan is acquired by an attempt with a new id.
begin_attempt-pending :
    (claim : Claim) (now : ℕ) (db : Db) (v : View)
    → view db claim.scan_id ≡ some v
    → v.tenant_id ≡ claim.tenant_id
    → is_pending v.status ≡ true
    → get db.attempts claim.attempt_id ≡ none
    → let begun = with_tenant_transaction healthy (begin_attempt claim now) db in
      let o : Owner = record {
        scan_id = claim.scan_id;
        tenant_id = claim.tenant_id;
        attempt_id = claim.attempt_id;
      } in
      (is_acquired begun.0 ≡ true) × (owns_scan o (view begun.1 claim.scan_id) ≡ true)
unfolding grants
begin_attempt-pending claim now db v there t p free =
    let same : (v.tenant_id == claim.tenant_id) ≡ true = rw t (eq_refl claim.tenant_id) in
    let may = may_begin-pending claim db v there same p in
    let granted : grants claim db ≡ true = rw (may, free) refl in
    let (out, views) = begin_attempt-refines claim now db in
    (
      out ∙ granted,
      rw (views claim.scan_id, granted, eq_refl claim.scan_id, there, same)
          (rw (eq_refl claim.attempt_id) refl),
    )

-- A delivery of the message of a new scan acquires it, where the connection is healthy and the id of
-- the attempt is new: `begin_attempt` says so, and the attempt owns the scan, which is IN_PROGRESS.
pub create_scan_request-acquired :
    (tools : Tools) (q : ScanRequest) (draws : Draws) (fate : Fate) (race : ApiDb → ApiDb)
    (db after : ApiDb) (c : CreatedScan) (claim : Claim) (now : ℕ)
    → create_scan_request tools q draws fate race db ≡ (returned (created c), after)
    → claim.scan_id ≡ c.scan_id
    → claim.tenant_id ≡ q.tenant_id
    → get after.shared.attempts claim.attempt_id ≡ none
    → let begun = with_tenant_transaction healthy (begin_attempt claim now) after.shared in
      let o : Owner = record {
        scan_id = claim.scan_id;
        tenant_id = claim.tenant_id;
        attempt_id = claim.attempt_id;
      } in
      (is_acquired begun.0 ≡ true) × (owns_scan o (view begun.1 claim.scan_id) ≡ true)
unfolding billing_request new_view
create_scan_request-acquired tools q draws fate race db after c claim now h s t free =
    let k = create-Creation tools q draws fate race db after c h in
    let w = k.written in
    begin_attempt-pending claim now after.shared (new_view q draws db.shared)
      (ap (view after.shared) (s ∙ ap (λ x. x.scan_id) w.answer)
        ∙ (ap (λ d. view d draws.scan_id) w.shared
            ∙ view-with_scan q k.azure k.authorization draws db.shared))
      (sym t) refl free

-- The tenant's usage of the month, with a new scan that is in the quota, is what the answer says, and
-- within the quota.
pub create_scan_request-within_quota :
    (tools : Tools) (q : ScanRequest) (draws : Draws) (fate : Fate) (race : ApiDb → ApiDb)
    (db after : ApiDb) (c : CreatedScan)
    → create_scan_request tools q draws fate race db ≡ (returned (created c), after)
    → c.authorization.is_quota_included ≡ true
    → (usage true q.tenant_id draws.quota_month after.shared.scans ≡ c.authorization.scans_used)
      × (c.authorization.scans_used ≤ get_or c.authorization.quota_limit 0)
unfolding billing_request new_scan
create_scan_request-within_quota tools q draws fate race db after c h i =
    let k = create-Creation tools q draws fate race db after c h in
    let w = k.written in
    let same = ap (λ x. x.authorization) w.answer in
    let included = sym (ap (λ x. x.is_quota_included) same) ∙ i in
    rw (same, w.shared)
      (authorize_scan-within_quota tools.billing db.tenants (billing_request q k.azure)
        draws.quota_month draws.now db.shared k.authorization draws.scan_id
        (new_scan q k.azure k.authorization draws) k.charged included w.fresh refl refl refl
        included
        (authorize_scan-accepted tools.billing db.tenants (billing_request q k.azure)
          draws.quota_month draws.now db.shared k.authorization k.charged).1)

enqueue-claimable :
    (event_id scan_id tenant_id now max_attempts later : ℕ) (message : Text)
    (rows after : Table EventRow)
    → enqueue_scan_requested event_id scan_id tenant_id message now rows ≡ some after
    → find_aggregate scan_id rows ≡ none
    → 0 < max_attempts
    → now ≤ later
    → (r : EventRow) × ((get after event_id ≡ some r)
        × ((r.aggregate_id ≡ scan_id)
            × ((r.payload ≡ message) × (claimable max_attempts later r ≡ true))))
unfolding enqueue_scan_requested claimable
enqueue-claimable event_id scan_id tenant_id now max_attempts later message rows after h free few
      due =
    let fresh : EventRow = record {
      aggregate_id = scan_id;
      tenant_id = tenant_id;
      payload = message;
      status = event_pending;
      attempts = 0;
      next_attempt_at = some now;
      locked_at = none;
      published_at = none;
      last_error = none;
      created_at = now;
      updated_at = now;
    } in
    let put_there = get-put event_id event_id fresh rows in
    (fresh, (ground arith, (refl, (refl, ground arith))))

-- The message of a new scan waits in the outbox, if the scan had no event: any publisher that grants an
-- event one attempt may claim it from then on.
pub create_scan_request-claimable :
    (tools : Tools) (q : ScanRequest) (draws : Draws) (fate : Fate) (race : ApiDb → ApiDb)
    (db after : ApiDb) (c : CreatedScan) (max_attempts later : ℕ)
    → create_scan_request tools q draws fate race db ≡ (returned (created c), after)
    → find_aggregate draws.scan_id db.outbox ≡ none
    → 0 < max_attempts
    → draws.now ≤ later
    → (r : EventRow) × ((get after.outbox draws.event_id ≡ some r)
        × ((r.aggregate_id ≡ c.scan_id)
            × ((r.payload
                  ≡ tools.message_text
                      (build_scan_requested_message q c.azure c.authorization draws))
                × (claimable max_attempts later r ≡ true))))
create_scan_request-claimable tools q draws fate race db after c max_attempts later h free few due =
    let k = create-Creation tools q draws fate race db after c h in
    let w = k.written in
    let (r, (there, (aggregate, (payload, may)))) =
      enqueue-claimable draws.event_id draws.scan_id q.tenant_id draws.now max_attempts later
        (tools.message_text (build_scan_requested_message q k.azure k.authorization draws))
        db.outbox after.outbox w.events free few due in
    (
      r,
      (
        there,
        (
          aggregate ∙ sym (ap (λ x. x.scan_id) w.answer),
          (
            payload
                ∙ ap
                    (λ x.
                      tools.message_text
                        (build_scan_requested_message q x.azure x.authorization draws))
                    (sym w.answer),
            may,
          ),
        ),
      ),
    )
