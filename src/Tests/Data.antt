-- ===== src/Tests/Data.antt =====
-- One scan of tenant 7, reserved and PENDING, and what a worker is told about it.
use bevoac_dev.Prelude.{ℕ, true, Option, none, some, [], ◌∷◌}
use bevoac_dev.Prelude.Text.{Text, text}
use bevoac_dev.Database.{Db, ScanRow, LedgerEntry, ScanStatus, scan_reserved, reserved}
use bevoac_dev.Worker.Errors.{Outcome, ok, JsError}
use bevoac_dev.Worker.Store.Transaction.{healthy}
use bevoac_dev.Worker.Store.Results.{ResultCodec, Limits, ScanResult}
use bevoac_dev.Worker.Store.Begin.{Claim}
use bevoac_dev.Worker.Store.Marks.{Owner, ErrorInfo}
use bevoac_dev.Worker.Processor.Environment.{Body, valid, Message, Config, Moment, Answers}

abbrev pub codec : ResultCodec
codec = record {
  encode = λ r. text "{}";
  summarize = λ r. text "{}";
  sha256 = λ t. text "44136fa3";
  gzip = λ t. text "H4sI";
}

abbrev pub limits : Limits
limits = record { max_result_bytes = some 1000; compression_threshold = some 100 }

abbrev pub scan_row : ScanStatus → Option ℕ → ScanRow
scan_row status owner = record {
  tenant_id = 7;
  cloud_provider = text "azure";
  scan_profile = text "standard";
  modules = text "entra" ∷ [];
  target_url = none;
  microsoft_tenant_id = some (text "contoso");
  subscriptions = [];
  billing_units = 1;
  is_quota_included = true;
  quota_month = 20;
  resource_limit = some 10;
  resource_count = none;
  status = status;
  processing_attempt_id = owner;
  billing_state = reserved;
  billing_error = none;
  error_message = none;
  error_code = none;
  error_correlation_id = none;
  result_size_bytes = none;
  result_sha256 = none;
  started_at = none;
  completed_at = none;
  created_at = 100;
  updated_at = 100;
}

abbrev pub reservation : LedgerEntry
reservation = record {
  tenant_id = 7;
  scan_id = some 1;
  event_type = scan_reserved;
  plan_code = text "standard";
  quota_month = 20;
  billing_units = 1;
  unit_price = 0;
  amount = 0;
  cloud_provider = some (text "azure");
  scan_profile = some (text "standard");
  modules = text "entra" ∷ [];
  recorded_at = 100;
}

abbrev pub pending_db : Db
pending_db = record {
  scans = (1, scan_row ScanStatus.pending none) ∷ [];
  attempts = [];
  results = [];
  ledger = reservation ∷ [];
}

abbrev pub running_db : Db
running_db = record {
  scans = (1, scan_row ScanStatus.in_progress (some 50)) ∷ [];
  attempts = [];
  results = [];
  ledger = reservation ∷ [];
}

abbrev pub claim : Claim
claim = record {
  scan_id = 1;
  tenant_id = 7;
  attempt_id = 51;
  worker_name = some (text "worker");
  message_id = some (text "m1");
  delivery_count = some 1;
}

abbrev pub running_owner : Owner
running_owner = record { scan_id = 1; tenant_id = 7; attempt_id = 50 }

abbrev pub scan_result : ScanResult
scan_result = record { report = some (text "{}"); preflight = none; error = none }

abbrev pub error_info : ErrorInfo
error_info = record {
  message = some (text "The scan could not be completed.");
  code = some (text "TERMINAL_SCAN_FAILURE");
  correlation_id = some 50;
}

abbrev pub throttled : JsError
throttled = record {
  code = none;
  name = some (text "RestError");
  statuses = some 429 ∷ [];
  message = text "Too many requests";
  partial_result = none;
}

abbrev pub cfg : Config
cfg = record {
  codec = codec;
  limits = limits;
  worker_name = text "worker";
  max_delivery_count = some 5;
  plan_resource_limits = (text "standard", some 500) ∷ [];
  has_client_secret = true;
  preflight_modules = text "storage" ∷ [];
}

abbrev pub moment : ℕ → Moment
moment now = record { now = now; connection = healthy }

-- the audit of the main path ends with the outcome
abbrev pub answers : Outcome Text → Answers
answers audit = record {
  attempt_id = 51;
  at_begin = moment 200;
  at_preflight = moment 201;
  at_close = moment 202;
  at_recovery = moment 203;
  resource_count = ok 3;
  audit = audit;
  receiver_main = none;
  receiver_recovery = none;
  receiver_last = none;
}

abbrev pub body : Body
body = record {
  scan_id = 1;
  tenant_id = 7;
  cloud_provider = text "azure";
  modules = text "entra" ∷ [];
  microsoft_tenant_id = some (text "contoso");
  limits = record { resource_limit = none; plan_code = some (text "standard") };
}

abbrev pub message : Message
message = record { message_id = some (text "m1"); delivery_count = some 1; content = valid body }

abbrev pub uuid_text : ℕ → Text
uuid_text n = n ∷ []
