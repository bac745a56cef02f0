-- ===== src/Api/Scans/Runs.antt =====
-- The parts of a run of `createScanRequest`, put together.
use bevoac_dev.Prelude.{◌≡◌, refl, ap, ◌∙◌, true, Option, some}
use bevoac_dev.Prelude.Text.{Text}
use bevoac_dev.Api.Errors.{DbError, ApiError, database_error, ApiResult, returned, failed}
use bevoac_dev.Api.Contract.{Azure}
use bevoac_dev.Api.Scans.{
  ApiDb, Tools, ScanRequest, Draws, Idempotency, resolve_idempotency, build_request_fingerprint,
}
use bevoac_dev.Api.Scans.Create.{
  ScanResponse, authorize_customer_targets, find_or_insert, Fate, works, interrupted, lost_answer,
  transact, attempt, Attempt, handle_error, create_scan_request,
}

module _ (tools : Tools) (q : ScanRequest) (draws : Draws) (others : ApiDb → ApiDb)
    (db : ApiDb) where
  -- what `createScanRequest` makes of its transaction
  settled : Idempotency → Attempt → ApiResult ScanResponse × ApiDb
  settled idem a = elim a.result [
    | returned x ↦ (returned x, a.tables)
    | failed e ↦
        (handle_error tools q draws idem a.fingerprint e (others a.tables), others a.tables)
  ]

  pub create-returned :
      (fate : Fate) (idem : Idempotency) (f : Option Text) (x : ScanResponse) (t : ApiDb)
      → resolve_idempotency draws.new_key q.idempotency_key ≡ returned idem
      → attempt tools q draws fate idem db
        ≡ record { result = returned x; fingerprint = f; tables = t }
      → create_scan_request tools q draws fate others db ≡ (returned x, t)
  unfolding create_scan_request settled
  create-returned fate idem f x t resolved a =
      rw (resolved, create_scan_request) (ap (settled idem) a)

  pub create-failed :
      (fate : Fate) (idem : Idempotency) (f : Option Text) (x : ApiError) (t : ApiDb)
      → resolve_idempotency draws.new_key q.idempotency_key ≡ returned idem
      → attempt tools q draws fate idem db
        ≡ record { result = failed x; fingerprint = f; tables = t }
      → create_scan_request tools q draws fate others db
        ≡ (handle_error tools q draws idem f x (others t), others t)
  unfolding create_scan_request settled
  create-failed fate idem f x t resolved a =
      rw (resolved, create_scan_request) (ap (settled idem) a)

module _ (tools : Tools) (q : ScanRequest) (azure : Azure) (db : ApiDb) where
  -- the fingerprint of an authorised request
  abbrev pub fingerprint_of : Text
  fingerprint_of = build_request_fingerprint tools q.cloud_provider q.scan_profile q.modules azure

  -- what a transaction makes of its body
  abbrev pub closed : Fate → ApiResult ScanResponse × ApiDb → Attempt
  closed fate y =
      let rolled_back : ApiError → Attempt =
        λ z. record { result = failed z; fingerprint = some fingerprint_of; tables = db } in
      elim fate [
        | interrupted late e ↦ rolled_back (database_error e)
        | works ↦ elim y.0 [
          | returned z ↦ record {
            result = returned z;
            fingerprint = some fingerprint_of;
            tables = y.1;
          }
          | failed z ↦ rolled_back z
        ]
        | lost_answer e ↦ elim y.0 [
          | returned z ↦ record {
            result = failed (database_error e);
            fingerprint = some fingerprint_of;
            tables = y.1;
          }
          | failed z ↦ rolled_back z
        ]
      ]

module _ (tools : Tools) (q : ScanRequest) (draws : Draws) (db : ApiDb) (idem : Idempotency)
    (azure : Azure) (x : ApiResult ScanResponse × ApiDb)
    (authorized : authorize_customer_targets tools db q ≡ returned azure)
    (body : find_or_insert tools q draws idem (fingerprint_of tools q azure db) azure db ≡ x) where
  -- An attempt whose request is authorised is its transaction, and that what it makes of its body.
  attempt-closed :
      (fate : Fate)
      → attempt tools q draws fate idem db
        ≡ transact tools q draws fate idem (fingerprint_of tools q azure db) azure db
      → attempt tools q draws fate idem db ≡ closed tools q azure db fate x
  unfolding transact
  attempt-closed fate a = a ∙ ap (closed tools q azure db fate) body

  pub attempt-works : attempt tools q draws works idem db ≡ closed tools q azure db works x
  unfolding attempt
  attempt-works = attempt-closed works (rw (authorized, attempt) refl)

  pub attempt-lost :
      (e : DbError)
      → attempt tools q draws (lost_answer e) idem db ≡ closed tools q azure db (lost_answer e) x
  unfolding attempt
  attempt-lost e = attempt-closed (lost_answer e) (rw (authorized, attempt) refl)

  pub attempt-interrupted :
      (e : DbError)
      → attempt tools q draws (interrupted true e) idem db
        ≡ closed tools q azure db (interrupted true e) x
  unfolding attempt
  attempt-interrupted e = attempt-closed (interrupted true e) (rw (authorized, attempt) refl)
