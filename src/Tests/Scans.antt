-- ===== src/Tests/Scans.antt =====
-- A request of tenant 7 to scan the storage of its one subscription.
use bevoac_dev.Prelude.{◌≤◌, ◌≡◌, refl, true, false, none, some, [], ◌∷◌, arith}
use bevoac_dev.Prelude.Text.{Text, text, text_eq, trim, mem_text, to_lower, lower_unit}
use bevoac_dev.Prelude.Table.{get, put}
use bevoac_dev.Database.{ScanRow, ScanStatus, event_eq, is_event}
use bevoac_dev.Worker.Lifecycle.{View, view, count_events, owns_scan}
use bevoac_dev.Worker.Lifecycle.Steps.Accounts.{IsAccounted}
use bevoac_dev.Worker.Lifecycle.Begin.{is_acquired}
use bevoac_dev.Worker.Store.Transaction.{healthy, with_tenant_transaction}
use bevoac_dev.Worker.Store.Begin.{Claim, begin_attempt}
use bevoac_dev.Worker.Store.Marks.{Owner}
use bevoac_dev.Api.Outbox.{EventRow, find_aggregate, claimable}
use bevoac_dev.Api.Scans.Created.{
  create_scan_request-Accounted, create_scan_request-acquired, create_scan_request-within_quota,
  create_scan_request-claimable,
}
use bevoac_dev.Api.Scans.Replayed.{create_scan_request-replay}
use bevoac_dev.Api.Scans.Lost.{create_scan_request-retried, create_scan_request-race}
use bevoac_dev.Api.Errors.{DbError, returned, and_then}
use bevoac_dev.Api.Targets.{
  ScopeRow, verified, resolve_authorized_azure_subscriptions, normalize_optional_uuid,
  normalize_uuids, unique, unique_from, where_scopes, is_subscription_scope, pairs_of, order_pairs,
  insert_pair, resolve_rows, resolve_one, lower_pair, missing_from,
}
use bevoac_dev.Api.Hosts.{UrlTools}
use bevoac_dev.Api.Contract.{module_descriptors, module_by_name, has_scope, resolve_billing_units}
use bevoac_dev.Api.Billing.{
  authorize_scan, get_plan_definition, assert_backpressure, get_active_scan_limit, limit_of,
  get_active_scan_count, charge_quota, usage,
}
use bevoac_dev.Api.Snapshots.{upsert_snapshot}
use bevoac_dev.Api.Scans.{
  IdempotencyRow, ApiDb, Tools, ScanRequest, Draws, client_supplied, resolve_idempotency,
}
use bevoac_dev.Api.Scans.Create.{
  CreatedScan, ReusedScan, created, reused, build_scan_requested_message, new_scan, interrupted,
  lost_answer, works, attempt, authorize_customer_targets, authorize_target, authorize_scopes,
  unknown_module, transact, find_or_insert, select_existing, find_key, billing_request, insert_all,
  create_scan_request,
}
use bevoac_dev.Tests.Billing.{billing_cfg, tenants}
use bevoac_dev.Tests.Data.{pending_db, scan_row}

abbrev pub azure_tenant : Text
azure_tenant = text "11111111-1111-4111-8111-111111111111"

abbrev pub subscription : Text
subscription = text "22222222-2222-4222-8222-222222222222"

abbrev pub scope_row : ScopeRow
scope_row = record {
  tenant_id = 7;
  microsoft_tenant_id = azure_tenant;
  subscription_id = some subscription;
  is_active = true;
  status = verified;
}

abbrev pub url_tools : UrlTools
url_tools = record {
  parse_url = λ t. some (record {
    protocol = text "https:";
    hostname = text "example.com";
    bare_text = text "https://example.com/";
  });
  is_ip = λ t. 0;
}

abbrev pub tools : Tools
tools = record {
  catalog = module_descriptors;
  billing = billing_cfg;
  urls = url_tools;
  stringify_and_hash = λ j. text "44136fa3";
  message_text = λ m. text "{}";
}

abbrev pub request : ScanRequest
request = record {
  tenant_id = 7;
  cloud_provider = text "azure";
  scan_profile = text "infra";
  modules = text "storage" ∷ [];
  azure = record { target_url = none; microsoft_tenant_id = none; subscriptions = [] };
  idempotency_key = some (text "key-1");
  request_id = none;
}

abbrev pub draws : Draws
draws = record { new_key = text "k"; scan_id = 2; event_id = 5; now = 300; quota_month = 20 }

abbrev pub api_db : ApiDb
api_db = record {
  shared = pending_db;
  tenants = tenants;
  scopes = scope_row ∷ [];
  web_targets = (record { tenant_id = 7; host = text "example.com"; is_active = true }) ∷ [];
  snapshots = [];
  idempotency = [];
  outbox = [];
}

abbrev pub scan : CreatedScan
scan = record {
  scan_id = 2;
  idempotency = record { key = text "key-1"; source = client_supplied };
  authorization = record {
    plan_code = text "standard";
    billing_units = 1;
    is_quota_included = true;
    quota_limit = some 20;
    resource_limit = some 500;
    active_limit = 2;
    active_count = 1;
    scans_used = 2;
    scans_remaining = some 18;
    payg_unit_price = 0;
    estimated_cost = 0;
  };
  azure = record {
    target_url = none;
    microsoft_tenant_id = some azure_tenant;
    subscriptions = subscription ∷ [];
  };
  created_at = 300;
}

abbrev pub after : ApiDb
after = (create_scan_request tools request draws works (λ d. d) api_db).1

pub creates :
    create_scan_request tools request draws works (λ d. d) api_db ≡ (returned (created scan), after)
unfolding create_scan_request resolve_idempotency trim attempt authorize_customer_targets
    authorize_target authorize_scopes unknown_module module_by_name module_descriptors has_scope
    mem_text text_eq and_then resolve_authorized_azure_subscriptions normalize_optional_uuid
    normalize_uuids unique unique_from where_scopes is_subscription_scope pairs_of order_pairs
    insert_pair resolve_rows resolve_one lower_pair missing_from to_lower lower_unit transact
    find_or_insert select_existing find_key billing_request resolve_billing_units authorize_scan get
    put get_plan_definition assert_backpressure get_active_scan_limit limit_of get_active_scan_count
    charge_quota usage insert_all upsert_snapshot
creates = refl

create_scan_request-Accounted_example :
    (view api_db.shared 2 ≡ none)
    × ((v : View) × ((view after.shared 2 ≡ some v)
          × (((v.status ≡ ScanStatus.pending) × (v.tenant_id ≡ 7)) × IsAccounted v)))
unfolding count_events is_event event_eq
create_scan_request-Accounted_example =
    create_scan_request-Accounted tools request draws works (λ d. d) api_db after scan creates refl
      refl

abbrev delivery : Claim
delivery = record {
  scan_id = 2;
  tenant_id = 7;
  attempt_id = 60;
  worker_name = none;
  message_id = some (text "m2");
  delivery_count = some 1;
}

create_scan_request-acquired_example :
    let begun = with_tenant_transaction healthy (begin_attempt delivery 300) after.shared in
    let o : Owner = record { scan_id = 2; tenant_id = 7; attempt_id = 60 } in
    (is_acquired begun.0 ≡ true) × (owns_scan o (view begun.1 2) ≡ true)
unfolding get create_scan_request module_descriptors
create_scan_request-acquired_example =
    create_scan_request-acquired tools request draws works (λ d. d) api_db after scan delivery 300
      creates refl refl refl

create_scan_request-within_quota_example : (usage true 7 20 after.shared.scans ≡ 2) × (2 ≤ 20)
create_scan_request-within_quota_example =
    create_scan_request-within_quota tools request draws works (λ d. d) api_db after scan creates
      refl

create_scan_request-claimable_example :
    (r : EventRow) × ((get after.outbox 5 ≡ some r)
      × ((r.aggregate_id ≡ 2)
          × ((r.payload
                ≡ tools.message_text
                    (build_scan_requested_message request scan.azure scan.authorization draws))
              × (claimable 10 300 r ≡ true))))
unfolding find_aggregate
create_scan_request-claimable_example =
    create_scan_request-claimable tools request draws works (λ d. d) api_db after scan 10 300
      creates refl (omega arith) (omega arith)

abbrev stored : ScanRow
stored = new_scan request scan.azure scan.authorization draws

stored_there : get after.shared.scans 2 ≡ some stored
unfolding create_scan_request resolve_idempotency trim attempt authorize_customer_targets
    authorize_target authorize_scopes unknown_module module_by_name module_descriptors has_scope
    mem_text text_eq and_then resolve_authorized_azure_subscriptions normalize_optional_uuid
    normalize_uuids unique unique_from where_scopes is_subscription_scope pairs_of order_pairs
    insert_pair resolve_rows resolve_one lower_pair missing_from to_lower lower_unit transact
    find_or_insert select_existing find_key billing_request resolve_billing_units authorize_scan get
    put get_plan_definition assert_backpressure get_active_scan_limit limit_of get_active_scan_count
    charge_quota usage insert_all upsert_snapshot
stored_there = refl

abbrev later_draws : Draws
later_draws = record { new_key = text "k2"; scan_id = 3; event_id = 6; now = 400; quota_month = 20 }

create_scan_request-replay_example :
    (r : ReusedScan) × ((create_scan_request tools request later_draws works (λ d. d) after
        ≡ (returned (reused r), after))
      × ((r.scan_id ≡ 2) × (r.status ≡ ScanStatus.pending)))
unfolding new_scan trim
create_scan_request-replay_example =
    create_scan_request-replay tools request draws later_draws (λ d. d) api_db after after scan
      stored works (λ v. refl) refl creates refl refl refl stored_there refl

abbrev broken : DbError
broken = record { is_unique_violation = false; constraint = [] }

create_scan_request-retried_example :
    (r : ReusedScan) × ((create_scan_request tools request later_draws works
          (λ d. d)
          (create_scan_request tools request draws (lost_answer broken) (λ d. d) api_db).1
        ≡ (returned (reused r), after))
      × ((r.scan_id ≡ 2) × (r.status ≡ ScanStatus.pending)))
unfolding trim
create_scan_request-retried_example =
    create_scan_request-retried tools request draws later_draws works (λ d. d) api_db after scan
      broken (λ v. refl) refl creates refl

abbrev violation : DbError
violation = record { is_unique_violation = true; constraint = text "scan_request_idempotency_pkey" }

abbrev won_key : IdempotencyRow
won_key = record {
  tenant_id = 7;
  idempotency_key = text "key-1";
  key_source = some client_supplied;
  request_fingerprint = some (text "44136fa3");
  scan_id = 1;
  created_at = 299;
}

-- another transaction of the tenant commits the same key for scan 1
abbrev winning : ApiDb → ApiDb
winning db = record db { idempotency = won_key ∷ db.idempotency }

abbrev winner : IdempotencyRow × ScanRow
winner = (won_key, scan_row ScanStatus.pending none)

create_scan_request-race_example :
    create_scan_request tools request draws (interrupted true violation) winning api_db
    ≡ create_scan_request tools request draws works (λ d. d) (winning api_db)
unfolding resolve_idempotency trim authorize_customer_targets authorize_target authorize_scopes
    unknown_module module_by_name module_descriptors has_scope mem_text text_eq and_then
    resolve_authorized_azure_subscriptions normalize_optional_uuid normalize_uuids unique
    unique_from where_scopes is_subscription_scope pairs_of order_pairs insert_pair resolve_rows
    resolve_one lower_pair missing_from to_lower lower_unit select_existing find_key get
create_scan_request-race_example =
    create_scan_request-race tools request draws winning api_db scan.idempotency scan.azure
      violation winner refl refl refl refl refl refl
