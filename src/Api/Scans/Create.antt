-- ===== src/Api/Scans/Create.antt =====
-- `createScanRequest` of services/scan-service.js, with what it calls.
mod Rows
mod Authorize
pub use Rows.{CreatedScan, ReusedScan, ScanResponse, created, reused}
unfoldable pub use Rows.{
  find_key, select_existing, existing_scan_response, stored_fingerprint, answer_existing, new_scan,
  reservation_entry, build_scan_requested_message, billing_request,
}
pub use Rows.{unique_violation_of}
unfoldable pub use Authorize.{
  unknown_module, authorize_target, authorize_scopes, authorize_customer_targets,
}
use bevoac_dev.Prelude.{
  ℕ, Bool, true, false, ◌&&◌, Option, none, some, List, [], ◌∷◌, any, ◌==◌, is_some, if◌then◌else◌,
}
use bevoac_dev.Prelude.Text.{Text, text, text_eq, mem_text, truthy, or_text, or_null}
use bevoac_dev.Prelude.Table.{get, put}
use bevoac_dev.Database.{ScanRow, ScanStatus, BillingState, reserved, LedgerEntry, scan_reserved}
use bevoac_dev.Api.Errors.{
  DbError, ApiError, internal_error, idempotency_conflict, outbox_event_conflict, billing_refused,
  database_error, ApiResult, returned, failed, and_then,
}
use bevoac_dev.Api.Targets.{
  resolve_authorized_azure_tenant, resolve_authorized_azure_subscriptions,
  ensure_authorized_web_target,
}
use bevoac_dev.Api.Contract.{
  Descriptor, Azure, module_by_name, has_scope, is_subscription, is_azure, resolve_billing_units,
}
use bevoac_dev.Api.Billing.{Authorization, Request, authorize_scan, accepted, refused}
use bevoac_dev.Api.Snapshots.{upsert_snapshot}
use bevoac_dev.Api.Outbox.{enqueue_scan_requested}
use bevoac_dev.Api.Scans.{
  KeySource, client_supplied, IdempotencyRow, ApiDb, RequestId, given, of_scan, ScanMessage, Tools,
  ScanRequest, Draws, Idempotency, resolve_idempotency, build_request_fingerprint,
  build_stored_request_fingerprint,
}

module _ (tools : Tools) (q : ScanRequest) (draws : Draws) where
  -- the INSERTs, for a request that is authorised: the scan, its entry, the snapshot, the key, the event
  unfoldable pub insert_all :
      Idempotency
      → (fingerprint : Text) → Azure
      → Authorization
      → ApiDb
      → ApiResult ScanResponse × ApiDb
  unfolding get put upsert_snapshot find_key enqueue_scan_requested new_scan reservation_entry
      build_scan_requested_message
  insert_all idem fingerprint azure a db =
      if is_some (get db.shared.scans draws.scan_id)
      then (failed (unique_violation_of (text "scans_pkey")), db)
      else let shared = record db.shared {
        scans = put draws.scan_id (new_scan q azure a draws) db.shared.scans;
        ledger = reservation_entry q a draws ∷ db.shared.ledger;
      } in
        elim (upsert_snapshot tools.billing db.tenants q.tenant_id draws.quota_month draws.now
          shared.ledger db.snapshots) [
            | refused e ↦ (failed (billing_refused e), db)
            | accepted snapshots ↦
                if is_some (find_key q.tenant_id idem.key db.idempotency)
                then (failed (unique_violation_of (text "scan_request_idempotency_pkey")), db)
                else elim (enqueue_scan_requested draws.event_id draws.scan_id q.tenant_id
                    (tools.message_text (build_scan_requested_message q azure a draws)) draws.now
                    db.outbox) [
                      | none ↦ (failed (unique_violation_of (text "outbox_events_pkey")), db)
                      | some outbox ↦ (
                        returned (
                            created (record {
                              scan_id = draws.scan_id;
                              idempotency = idem;
                              authorization = a;
                              azure = azure;
                              created_at = draws.now;
                            })),
                        record db {
                          shared = shared;
                          snapshots = snapshots;
                          idempotency =
                              record {
                                tenant_id = q.tenant_id;
                                idempotency_key = idem.key;
                                key_source = some idem.source;
                                request_fingerprint = some fingerprint;
                                scan_id = draws.scan_id;
                                created_at = draws.now;
                              }
                              ∷ db.idempotency;
                          outbox = outbox;
                        },
                      )
                    ]
          ]

  -- The body of the transaction after `requestFingerprint` is set. What a call that throws has written
  -- is rolled back by the caller.
  unfoldable pub find_or_insert :
      Idempotency → (fingerprint : Text) → Azure → ApiDb → ApiResult ScanResponse × ApiDb
  unfolding select_existing answer_existing authorize_scan insert_all billing_request
  find_or_insert idem fingerprint azure db = elim (select_existing q.tenant_id idem.key db) [
    | some existing ↦ (answer_existing tools fingerprint idem.key existing, db)
    | none ↦
        let (authorized, shared) =
          authorize_scan tools.billing db.tenants (billing_request q azure) draws.quota_month
            draws.now db.shared in
        elim authorized [
          | refused e ↦ (failed (billing_refused e), record db { shared = shared })
          | accepted a ↦ insert_all idem fingerprint azure a (record db { shared = shared })
        ]
  ]

-- How the server treats the transaction: it works; a statement fails, after `requestFingerprint` is set
-- or before; or the answer to COMMIT is lost.
pub data Fate : Type 0 where
  works : Fate
  interrupted : (after_fingerprint : Bool) → DbError → Fate
  lost_answer : DbError → Fate

-- the transaction: its result, `requestFingerprint`, and the tables after COMMIT or ROLLBACK
pub record Attempt : Type 0 where
  pub result : ApiResult ScanResponse
  pub fingerprint : Option Text
  pub tables : ApiDb

module _ (tools : Tools) (q : ScanRequest) (draws : Draws) where
  -- `withTenantTransaction`, once the body has its fingerprint
  unfoldable pub transact : Fate → Idempotency → (fingerprint : Text) → Azure → ApiDb → Attempt
  unfolding find_or_insert
  transact fate idem fingerprint azure db =
      let (r, after) = find_or_insert tools q draws idem fingerprint azure db in
      elim fate [
        | interrupted late e ↦ record {
          result = failed (database_error e);
          fingerprint = some fingerprint;
          tables = db;
        }
        | works ↦ elim r [
          | returned x ↦ record {
            result = returned x;
            fingerprint = some fingerprint;
            tables = after;
          }
          | failed x ↦ record { result = failed x; fingerprint = some fingerprint; tables = db }
        ]
        | lost_answer e ↦ elim r [
          | returned x ↦ record {
            result = failed (database_error e);
            fingerprint = some fingerprint;
            tables = after;
          }
          | failed x ↦ record { result = failed x; fingerprint = some fingerprint; tables = db }
        ]
      ]

  unfoldable pub attempt : Fate → Idempotency → ApiDb → Attempt
  unfolding authorize_customer_targets transact build_request_fingerprint
  attempt (interrupted false e) idem db = record {
    result = failed (database_error e);
    fingerprint = none;
    tables = db;
  }
  attempt fate idem db = elim (authorize_customer_targets tools db q) [
    | failed e ↦ record { result = failed e; fingerprint = none; tables = db }
    | returned azure ↦
        transact fate idem
          (build_request_fingerprint tools q.cloud_provider q.scan_profile q.modules azure) azure db
  ]

  -- the `catch` block, with the tables that its lookup sees
  unfoldable pub handle_error :
      Idempotency → (fingerprint : Option Text) → ApiError → ApiDb → ApiResult ScanResponse
  unfolding select_existing answer_existing text_eq
  handle_error idem fingerprint (database_error d) db =
      let rest : ApiResult ScanResponse =
        if d.is_unique_violation && text_eq d.constraint (text "uq_outbox_event_aggregate")
        then failed outbox_event_conflict
        else failed (database_error d) in
      if d.is_unique_violation
      then elim (select_existing q.tenant_id idem.key db) [
        | none ↦ rest
        | some existing ↦ elim fingerprint [
          | none ↦ failed (database_error d)
          | some f ↦ answer_existing tools f idem.key existing
        ]
      ]
      else rest
  handle_error idem fingerprint e db = failed e

  -- `others` is what other transactions write before the lookup of the `catch` block.
  unfoldable pub create_scan_request :
      Fate → (others : ApiDb → ApiDb) → ApiDb → ApiResult ScanResponse × ApiDb
  unfolding resolve_idempotency attempt handle_error
  create_scan_request fate others db = elim (resolve_idempotency draws.new_key q.idempotency_key) [
    | failed e ↦ (failed e, db)
    | returned idem ↦
        let a = attempt fate idem db in
        elim a.result [
          | returned x ↦ (returned x, a.tables)
          | failed e ↦ (handle_error idem a.fingerprint e (others a.tables), others a.tables)
        ]
  ]
