-- ===== src/Worker/Store/Results.antt =====
-- scan-store.js: `boundedText`, `saveResult`.
use bevoac_dev.Prelude.{ℕ, Bool, Option, none, some, [], take, ltb, ◌==◌, if◌then◌else◌, get_or}
use bevoac_dev.Prelude.Text.{Text, text, utf8_length}
use bevoac_dev.Prelude.Table.{get, put}
use bevoac_dev.Database.{Db, ResultRow, plain_json, gzip_base64, update_scan}
use bevoac_dev.Worker.Errors.{Report, PublicFailure, ok, raised, Thrown}
use bevoac_dev.Worker.Store.Transaction.{Tx, plain_error}

-- `String(value || '').slice(0, max)`
abbrev pub bounded_text : Option Text → ℕ → Text
bounded_text value max = take max (get_or value [])

-- A result object of the worker: a report, with `resourcePreflight` and `error` put over it. With no
-- report it is `{ durationMs: 0, kpiScorecard: null }` with those two fields.
pub record ScanResult : Type 0 where
  pub report : Option Report
  pub preflight : Option (ℕ × Option ℕ)
  pub error : Option PublicFailure

-- What `saveResult` calls: `JSON.stringify` after lib/result-sanitizer.js, the summary of
-- lib/findings-collector.js, and the hash and compression of Node.
pub record ResultCodec : Type 0 where
  pub encode : ScanResult → Text
  pub summarize : ScanResult → Text
  pub sha256 : Text → Text
  pub gzip : Text → Text

pub record Limits : Type 0 where
  pub max_result_bytes : Option ℕ
  pub compression_threshold : Option ℕ

abbrev pub exceeds : ℕ → Option ℕ → Bool
exceeds bytes none = Bool.false
exceeds bytes (some limit) = ltb limit bytes

-- the row that is written; an existing row keeps its `created_at` and its tenant
unfoldable pub result_row : ResultCodec → Limits → ℕ → ℕ → Option ResultRow → ScanResult → ResultRow
result_row codec limits tenant_id now old result =
    let json = codec.encode result in
    let bytes = utf8_length json in
    let large = exceeds bytes limits.compression_threshold in
    record {
      tenant_id = elim old [ none ↦ tenant_id | some row ↦ row.tenant_id ];
      result_json = if large then none else some json;
      result_gzip_base64 = if large then some (codec.gzip json) else none;
      compression = if large then gzip_base64 else plain_json;
      size_bytes = bytes;
      sha256 = codec.sha256 json;
      summary = codec.summarize result;
      created_at = elim old [ none ↦ now | some row ↦ row.created_at ];
      updated_at = now;
    }

-- The two sizes that stand in brackets in its message are left out: nothing reads them.
abbrev pub size_error : Thrown
size_error =
    plain_error (some (text "RESULT_SIZE_LIMIT_EXCEEDED"))
      (text "Result JSON exceeds MAX_RESULT_JSON_BYTES.")

unfoldable pub save_result :
    ResultCodec → Limits → (scan_id tenant_id now : ℕ) → ScanResult → Tx (Unit {0})
unfolding update_scan result_row
save_result codec limits scan_id tenant_id now result db =
    let json = codec.encode result in
    let bytes = utf8_length json in
    let row = result_row codec limits tenant_id now (get db.results scan_id) result in
    let saved : Db = record db { results = put scan_id row db.results } in
    let sized =
      update_scan scan_id (λ r. r.tenant_id == tenant_id)
        (λ r. record r { result_size_bytes = some bytes; result_sha256 = some (codec.sha256 json) })
        saved in
    if exceeds bytes limits.max_result_bytes then (raised size_error, db) else (ok tt, sized.0)
