-- ===== src/Tests/Processed.antt =====
-- A scan from its request to its end.
use bevoac_dev.Prelude.{◌≡◌, refl, true, some, [], ◌∷◌}
use bevoac_dev.Prelude.Text.{text, utf8_length}
use bevoac_dev.Prelude.Table.{get}
use bevoac_dev.Database.{ScanStatus, event_eq, is_event}
use bevoac_dev.Worker.Errors.{ok}
use bevoac_dev.Worker.Providers.{
  assert_provider_runtime_enabled, get_provider_status, normalize_provider,
}
use bevoac_dev.Worker.Lifecycle.{View, view, count_events}
use bevoac_dev.Worker.Lifecycle.Begin.{may_begin, grants}
use bevoac_dev.Worker.Lifecycle.Steps.Accounts.{IsAccounted}
use bevoac_dev.Worker.Processor.Exec.{completed}
use bevoac_dev.Worker.Processor.Environment.{
  Body, Message, valid, build_cross_tenant_credential, has_infra_modules,
}
use bevoac_dev.Worker.Processor.Process.{process_scan_message}
use bevoac_dev.Worker.Processor.Outcomes.Ends.{Audits}
use bevoac_dev.Api.Contract.{module_descriptors}
use bevoac_dev.Api.Scans.Create.{create_scan_request, works}
use bevoac_dev.Api.Scans.Processed.{create_scan_request-processed}
use bevoac_dev.Tests.Data.{cfg, answers, body, uuid_text}
use bevoac_dev.Tests.Scans.{tools, request, draws, api_db, after, scan, creates}

abbrev its_body : Body
its_body = record body { scan_id = 2 }

abbrev its_message : Message
its_message = record {
  message_id = some (text "m2");
  delivery_count = some 1;
  content = valid its_body;
}

its_audit : Audits uuid_text cfg (answers (ok (text "{}"))) its_message its_body after.shared
unfolding grants may_begin get assert_provider_runtime_enabled get_provider_status
    normalize_provider build_cross_tenant_credential has_infra_modules create_scan_request
    module_descriptors
its_audit = record {
  valid_body = refl;
  begins = refl;
  granted = refl;
  status = _;
  enabled = refl;
  credential = true;
  credentials = refl;
  no_infra = refl;
}

create_scan_request-processed_example :
    let y =
      process_scan_message uuid_text cfg (answers (ok (text "{}"))) its_message after.shared in
    (y.1.settled ≡ completed ∷ [])
    × ((v : View) × ((view y.1.db 2 ≡ some v) × ((v.status ≡ ScanStatus.done) × IsAccounted v)))
unfolding count_events is_event event_eq utf8_length
create_scan_request-processed_example =
    create_scan_request-processed tools request draws works (λ d. d) api_db after scan uuid_text cfg
      (answers (ok (text "{}"))) its_message its_body (text "{}") creates refl refl refl refl
      its_audit refl refl refl refl
