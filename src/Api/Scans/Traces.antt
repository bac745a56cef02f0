-- ===== src/Api/Scans/Traces.antt =====
-- The paths of `createScanRequest` by its result.
use bevoac_dev.Prelude.{
  ◌≡◌, sym, ap, ◌∙◌, subst, inl, inr, ◌∷◌, false, Option, none, some, arith, Option-cases,
}
use bevoac_dev.Prelude.Text.{Text}
use bevoac_dev.Prelude.Table.{get, put}
use bevoac_dev.Database.{ScanRow}
use bevoac_dev.Api.Errors.{ApiError, database_error, ApiResult, returned, ApiResult-cases}
use bevoac_dev.Api.Contract.{Azure}
use bevoac_dev.Api.Billing.{Authorization, accepted, authorize_scan}
use bevoac_dev.Api.Billing.Quotas.{BillingResult-cases, authorize_scan-accepted}
use bevoac_dev.Api.Snapshots.{upsert_snapshot}
use bevoac_dev.Api.Outbox.{enqueue_scan_requested}
use bevoac_dev.Api.Scans.{
  IdempotencyRow, ApiDb, Tools, ScanRequest, Draws, Idempotency, resolve_idempotency,
  build_request_fingerprint,
}
use bevoac_dev.Api.Scans.Create.{
  CreatedScan, ScanResponse, created, authorize_customer_targets, find_key, select_existing,
  answer_existing, existing_scan_response, build_scan_requested_message, billing_request, new_scan,
  reservation_entry, insert_all, find_or_insert, Fate, works, interrupted, lost_answer, transact,
  attempt, handle_error, create_scan_request,
}

-- An answer about a scan that is there is none about a new one.
answer_existing-not_created :
    (tools : Tools) (fingerprint key : Text) (e : IdempotencyRow × ScanRow) (c : CreatedScan)
    → answer_existing tools fingerprint key e ≡ returned (created c)
    → ⊥
unfolding answer_existing existing_scan_response
answer_existing-not_created tools fingerprint key (i, s) c h = ground arith

handle_error-not_created :
    (tools : Tools) (q : ScanRequest) (draws : Draws) (idem : Idempotency)
    (fingerprint : Option Text) (e : ApiError) (db : ApiDb) (c : CreatedScan)
    → handle_error tools q draws idem fingerprint e db ≡ returned (created c)
    → ⊥
unfolding handle_error
handle_error-not_created tools q draws idem fingerprint (database_error d) db c h =
    elim (Option-cases (select_existing q.tenant_id idem.key db)) [
      | inl e ↦ ground arith
      | inr (x, e) ↦ elim (Option-cases fingerprint) [
        | inl f ↦ ground arith
        | inr (t, f) ↦ ground (arith, answer_existing-not_created tools t idem.key x c)
      ]
    ]
handle_error-not_created tools q draws idem fingerprint e db c h = ground arith

-- What the INSERTs of a new scan have written.
pub record Written (tools : Tools) (q : ScanRequest) (draws : Draws) (idem : Idempotency)
    (fingerprint : Text) (azure : Azure) (a : Authorization) (db after : ApiDb) (c : CreatedScan)
    : Type 0 where
  pub fresh : get db.shared.scans draws.scan_id ≡ none
  pub free_key : find_key q.tenant_id idem.key db.idempotency ≡ none
  pub answer : c ≡ record {
    scan_id = draws.scan_id;
    idempotency = idem;
    authorization = a;
    azure = azure;
    created_at = draws.now;
  }
  pub shared : after.shared ≡ record db.shared {
    scans = put draws.scan_id (new_scan q azure a draws) db.shared.scans;
    ledger = reservation_entry q a draws ∷ db.shared.ledger;
  }
  pub keys :
      after.idempotency
      ≡ record {
        tenant_id = q.tenant_id;
        idempotency_key = idem.key;
        key_source = some idem.source;
        request_fingerprint = some fingerprint;
        scan_id = draws.scan_id;
        created_at = draws.now;
      }
        ∷ db.idempotency
  pub events :
      enqueue_scan_requested draws.event_id draws.scan_id q.tenant_id
        (tools.message_text (build_scan_requested_message q azure a draws))
        draws.now
        db.outbox
      ≡ some after.outbox
  pub others : (after.scopes ≡ db.scopes) × (after.web_targets ≡ db.web_targets)

created_or : CreatedScan → ApiResult ScanResponse → CreatedScan
created_or c (returned (created x)) = x
created_or c _ = c

insert_all-Written :
    (tools : Tools) (q : ScanRequest) (draws : Draws) (idem : Idempotency) (fingerprint : Text)
    (azure : Azure) (a : Authorization) (db after : ApiDb) (c : CreatedScan)
    → insert_all tools q draws idem fingerprint azure a db ≡ (returned (created c), after)
    → Written tools q draws idem fingerprint azure a db after c
unfolding insert_all created_or
insert_all-Written tools q draws idem fingerprint azure a db after c h =
    elim (Option-cases (get db.shared.scans draws.scan_id)) [
      | inr (r, e) ↦ ground arith
      | inl e ↦
          elim (BillingResult-cases (
            upsert_snapshot tools.billing db.tenants q.tenant_id draws.quota_month draws.now
              (reservation_entry q a draws ∷ db.shared.ledger) db.snapshots)) [
                | inr (x, g) ↦ ground arith
                | inl (l, g) ↦ elim (Option-cases (find_key q.tenant_id idem.key db.idempotency)) [
                  | inr (i, f) ↦ ground arith
                  | inl f ↦
                      elim (Option-cases (
                        enqueue_scan_requested draws.event_id draws.scan_id q.tenant_id
                          (tools.message_text (build_scan_requested_message q azure a draws))
                          draws.now db.outbox)) [
                            | inl u ↦ ground arith
                            | inr (outbox, u) ↦
                                let k = rw (e, g, f, u, insert_all) at h in
                                record {
                                  fresh = e;
                                  free_key = f;
                                  answer = sym (ap (λ r. created_or c r.0) k);
                                  shared = sym (ap (λ r. r.1.shared) k);
                                  keys = sym (ap (λ r. r.1.idempotency) k);
                                  events = u ∙ ap (λ r. some r.1.outbox) k;
                                  others = (
                                    sym (ap (λ r. r.1.scopes) k),
                                    sym (ap (λ r. r.1.web_targets) k),
                                  );
                                }
                          ]
                ]
              ]
    ]

-- What `createScanRequest` has found and written where it answers with a new scan.
pub record Creation (tools : Tools) (q : ScanRequest) (draws : Draws) (db after : ApiDb)
    (c : CreatedScan) : Type 0 where
  pub idem : Idempotency
  pub azure : Azure
  pub authorization : Authorization
  pub resolved : resolve_idempotency draws.new_key q.idempotency_key ≡ returned idem
  pub authorized : authorize_customer_targets tools db q ≡ returned azure
  pub body :
      find_or_insert tools q draws idem
        (build_request_fingerprint tools q.cloud_provider q.scan_profile q.modules azure)
        azure
        db
      ≡ (returned (created c), after)
  pub charged :
      (authorize_scan tools.billing db.tenants
        (billing_request q azure)
        draws.quota_month
        draws.now
        db.shared).0
      ≡ accepted authorization
  pub written :
      Written tools q draws idem
        (build_request_fingerprint tools q.cloud_provider q.scan_profile q.modules azure)
        azure
        authorization
        db
        after
        c

find_or_insert-created :
    (tools : Tools) (q : ScanRequest) (draws : Draws) (idem : Idempotency) (fingerprint : Text)
    (azure : Azure) (db after : ApiDb) (c : CreatedScan)
    → find_or_insert tools q draws idem fingerprint azure db ≡ (returned (created c), after)
    → (a : Authorization) × (((authorize_scan tools.billing db.tenants
            (billing_request q azure)
            draws.quota_month
            draws.now
            db.shared).0
          ≡ accepted a)
        × Written tools q draws idem fingerprint azure a db after c)
unfolding find_or_insert
find_or_insert-created tools q draws idem fingerprint azure db after c h =
    elim (Option-cases (select_existing q.tenant_id idem.key db)) [
      | inr (x, e) ↦ ground (
        arith,
        answer_existing-not_created tools fingerprint idem.key x c
            (ap (λ r. r.0) (rw (e, find_or_insert) at h)),
      )
      | inl e ↦
          elim (BillingResult-cases
            (authorize_scan tools.billing db.tenants (billing_request q azure) draws.quota_month
              draws.now db.shared).0) [
                | inr (x, g) ↦ ground arith
                | inl (a, g) ↦
                    let kept =
                      authorize_scan-accepted tools.billing db.tenants (billing_request q azure)
                        draws.quota_month draws.now db.shared a g in
                    (
                      a,
                      (
                        g,
                        insert_all-Written tools q draws idem fingerprint azure a db after c (
                            subst
                              (λ s.
                                insert_all tools q draws idem fingerprint azure a
                                  (record db { shared = s })
                                ≡ (returned (created c), after))
                              kept.0 (rw (e, g, find_or_insert) at h)),
                      ),
                    )
              ]
    ]

transact-created :
    (tools : Tools) (q : ScanRequest) (draws : Draws) (fate : Fate) (idem : Idempotency)
    (fingerprint : Text) (azure : Azure) (db : ApiDb) (c : CreatedScan)
    → (transact tools q draws fate idem fingerprint azure db).result ≡ returned (created c)
    → find_or_insert tools q draws idem fingerprint azure db
      ≡ (returned (created c), (transact tools q draws fate idem fingerprint azure db).tables)
unfolding transact
transact-created tools q draws (interrupted late e) idem fingerprint azure db c h = cc
transact-created tools q draws works idem fingerprint azure db c h =
    let (r, after) = find_or_insert tools q draws idem fingerprint azure db in ground arith
transact-created tools q draws (lost_answer e) idem fingerprint azure db c h = ground arith

module _ (tools : Tools) (q : ScanRequest) (draws : Draws) (idem : Idempotency) (db : ApiDb)
    (c : CreatedScan) where
  -- what a transaction that creates has gone through
  unfoldable Passed : ApiDb → Type 0
  Passed after =
      (azure : Azure) × ((authorize_customer_targets tools db q ≡ returned azure)
        × (find_or_insert tools q draws idem
              (build_request_fingerprint tools q.cloud_provider q.scan_profile q.modules azure)
              azure db
            ≡ (returned (created c), after)))

  attempt-transact :
      (fate : Fate) (azure : Azure)
      → authorize_customer_targets tools db q ≡ returned azure
      → attempt tools q draws fate idem db
        ≡ transact tools q draws fate idem
            (build_request_fingerprint tools q.cloud_provider q.scan_profile q.modules azure)
            azure
            db
      → (attempt tools q draws fate idem db).result ≡ returned (created c)
      → Passed (attempt tools q draws fate idem db).tables
  unfolding Passed
  attempt-transact fate azure g k h =
      let fingerprint =
        build_request_fingerprint tools q.cloud_provider q.scan_profile q.modules azure in
      (
        azure,
        (
          g,
          subst
              (λ t.
                find_or_insert tools q draws idem fingerprint azure db
                ≡ (returned (created c), t.tables))
              (sym k)
              (transact-created tools q draws fate idem fingerprint azure db c
                (ap (λ t. t.result) (sym k) ∙ h)),
        ),
      )

  attempt-created :
      (fate : Fate)
      → (attempt tools q draws fate idem db).result ≡ returned (created c)
      → Passed (attempt tools q draws fate idem db).tables
  unfolding attempt
  attempt-created (interrupted false e) h = cc
  attempt-created fate h = elim (ApiResult-cases (authorize_customer_targets tools db q)) [
    | inr (x, g) ↦ ground arith
    | inl (azure, g) ↦ attempt-transact fate azure g (rw (g, attempt)) h
  ]

pub create-Creation :
    (tools : Tools) (q : ScanRequest) (draws : Draws) (fate : Fate) (race : ApiDb → ApiDb)
    (db after : ApiDb) (c : CreatedScan)
    → create_scan_request tools q draws fate race db ≡ (returned (created c), after)
    → Creation tools q draws db after c
unfolding create_scan_request Passed
create-Creation tools q draws fate race db after c h =
    elim (ApiResult-cases (resolve_idempotency draws.new_key q.idempotency_key)) [
      | inr (x, e) ↦ ground arith
      | inl (idem, e) ↦ elim (ApiResult-cases (attempt tools q draws fate idem db).result) [
        | inr (x, f) ↦ ground (
          arith,
          handle_error-not_created tools q draws idem
              (attempt tools q draws fate idem db).fingerprint x
              (race (attempt tools q draws fate idem db).tables) c,
        )
        | inl (r, f) ↦
            let k = rw (e, f, create_scan_request) at h in
            let tables = (attempt tools q draws fate idem db).tables in
            let (azure, (g, path)) =
              attempt-created tools q draws idem db c fate (f ∙ ap (λ x. x.0) k) in
            let (a, (charged, written)) =
              find_or_insert-created tools q draws idem
                (build_request_fingerprint tools q.cloud_provider q.scan_profile q.modules azure)
                azure db tables c path in
            record {
              idem = idem;
              azure = azure;
              authorization = a;
              resolved = e;
              authorized = g;
              body = path ∙ ap (λ t. (returned (created c), t)) (ap (λ x. x.1) k);
              charged = charged;
              written =
                  subst
                    (λ t.
                      Written tools q draws idem
                        (build_request_fingerprint tools q.cloud_provider q.scan_profile q.modules
                          azure)
                        azure a db t c)
                    (ap (λ x. x.1) k) written;
            }
      ]
    ]
