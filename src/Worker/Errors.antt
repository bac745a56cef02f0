-- ===== src/Worker/Errors.antt =====
-- lib/worker-errors.js of the worker: what a thrown value is, whether it may be retried, and what a
-- customer is told. The internal `message` of a failure is only logged, and is kept for plain errors,
-- whose classification reads it.
pub mod Classify
use bevoac_dev.Prelude.{
  ℕ, Bool, true, false, ◌||◌, ◌&&◌, Option, none, some, List, [], ◌∷◌, map, take, any, leb, ltb,
  ◌==◌, if◌then◌else◌,
}
use bevoac_dev.Prelude.Text.{Text, text, to_upper, to_lower, mem_text, includes, or_text, text_eq}

-- An audit report, carried as the text of its JSON object: nothing here looks inside.
abbrev pub Report : Type 0
Report = Text

-- A thrown value that is no `WorkerFailure`. `statuses` are `statusCode`, `status`,
-- `response.status` and `response.statusCode` after `Number`, null where that is no natural number.
pub record JsError : Type 0 where
  pub code : Option Text
  pub name : Option Text
  pub statuses : List (Option ℕ)
  pub message : Text
  pub partial_result : Option Report

-- `cause_partial` is `cause.partialResult`, `partial_result` the one that is put on the failure itself.
pub record WorkerFailure : Type 0 where
  pub code : Text
  pub retryable : Bool
  pub public_message : Text
  pub cause_partial : Option Report
  pub partial_result : Option Report

pub data Thrown : Type 0 where
  js : JsError → Thrown
  worker : WorkerFailure → Thrown

-- What an asynchronous function does in the end.
pub data Outcome {ℓ} (A : Type ℓ) : Type ℓ where
  ok : A → Outcome A
  raised : Thrown → Outcome A

abbrev pub retryable_status : List ℕ
retryable_status = 408 ∷ 409 ∷ 425 ∷ 429 ∷ 500 ∷ 502 ∷ 503 ∷ 504 ∷ []

abbrev pub terminal_status : List ℕ
terminal_status = 400 ∷ 401 ∷ 403 ∷ 404 ∷ 405 ∷ 422 ∷ []

abbrev pub retryable_codes : List Text
retryable_codes =
    text "ECONNRESET"
    ∷ text "ECONNREFUSED"
    ∷ text "EAI_AGAIN"
    ∷ text "ENETDOWN"
    ∷ text "ENETUNREACH"
    ∷ text "EPIPE"
    ∷ text "ESOCKETTIMEDOUT"
    ∷ text "ETIMEDOUT"
    ∷ text "UND_ERR_CONNECT_TIMEOUT"
    ∷ text "MODULE_TIMEOUT"
    ∷ text "RESOURCE_GRAPH_REPEATED_SKIP_TOKEN"
    ∷ []

abbrev pub retryable_needles : List Text
retryable_needles =
    text "timeout"
    ∷ text "timed out"
    ∷ text "temporar"
    ∷ text "throttl"
    ∷ text "socket hang up"
    ∷ text "connection reset"
    ∷ text "service unavailable"
    ∷ text "too many requests"
    ∷ text "network error"
    ∷ text "econnreset"
    ∷ text "etimedout"
    ∷ []

abbrev pub retry_message : Text
retry_message =
    text "A temporary cloud-provider error interrupted the scan. The request will be retried."

abbrev pub terminal_message : Text
terminal_message = text "The scan could not be completed."

abbrev pub permission_message : Text
permission_message =
    text "The connected cloud scope does not grant the permissions required by this scan."

-- the options of the constructors; null and "" fall back to the defaults
abbrev pub default_message : Bool → Text
default_message retryable = if retryable then retry_message else terminal_message

unfoldable pub worker_failure : Text → Bool → Option Text → Option Report → WorkerFailure
worker_failure code retryable public_message cause_partial = record {
  code = code;
  retryable = retryable;
  public_message = or_text public_message (default_message retryable);
  cause_partial = cause_partial;
  partial_result = none;
}

-- the two subclasses, each with its own `retryable`
unfoldable pub retryable_worker_error : Option Text → Option Text → Option Report → WorkerFailure
unfolding worker_failure
retryable_worker_error code = worker_failure (or_text code (text "TRANSIENT_PROVIDER_FAILURE")) true

unfoldable pub terminal_worker_error : Option Text → Option Text → Option Report → WorkerFailure
unfolding worker_failure
terminal_worker_error code = worker_failure (or_text code (text "TERMINAL_SCAN_FAILURE")) false

-- The first candidate that is a positive integer.
first_status : List (Option ℕ) → ℕ
first_status [] = 0
first_status (none ∷ rest) = first_status rest
first_status (some n ∷ rest) = if ltb 0 n then n else first_status rest

unfoldable pub status_code_of : JsError → ℕ
unfolding first_status
status_code_of e = first_status e.statuses

-- `[A-Z0-9_.-]`, other units become `_`
unfoldable pub safe_unit : ℕ → ℕ
safe_unit c =
    if (leb b'A' c && leb c b'Z')
      || (leb b'0' c && leb c b'9')
      || c == b'_'
      || c == b'.'
      || c == b'-'
    then c
    else b'_'

-- `raw` is never empty, so the last `||` of the source does not fall through.
unfoldable pub safe_code : JsError → Text
unfolding safe_unit to_upper
safe_code e =
    take 120 (map safe_unit (to_upper (or_text e.code (or_text e.name (text "WORKER_FAILURE")))))

unfoldable pub is_retryable_js : JsError → Bool
unfolding status_code_of to_upper to_lower mem_text includes
is_retryable_js e =
    let status = status_code_of e in
    if any (λ s. s == status) retryable_status
    then true
    else if any (λ s. s == status) terminal_status
    then false
    else if mem_text (to_upper (or_text e.code [])) retryable_codes
    then true
    else any (includes (to_lower e.message)) retryable_needles

unfoldable pub is_retryable_error : Thrown → Bool
unfolding is_retryable_js
is_retryable_error (js e) = is_retryable_js e
is_retryable_error (worker f) = f.retryable

abbrev pub is_permission : ℕ → Bool
is_permission status = status == 401 || status == 403

unfoldable pub failure_code : Bool → ℕ → JsError → Text
unfolding safe_code
failure_code true status e =
    if status == 429
    then text "UPSTREAM_THROTTLED"
    else if leb 500 status
    then text "UPSTREAM_UNAVAILABLE"
    else text "TRANSIENT_PROVIDER_FAILURE"
failure_code false status e =
    if is_permission status then text "PROVIDER_PERMISSION_DENIED" else safe_code e

unfoldable pub failure_message : Bool → ℕ → Text
failure_message true status = retry_message
failure_message false status = if is_permission status then permission_message else terminal_message

-- A failure stays itself; anything else becomes one, with the thrown value for its cause.
unfoldable pub classify_worker_error : Thrown → WorkerFailure
unfolding is_retryable_js status_code_of failure_code failure_message retryable_worker_error
    terminal_worker_error
classify_worker_error (worker f) = f
classify_worker_error (js e) =
    let retryable = is_retryable_js e in
    let status = status_code_of e in
    let code = some (failure_code retryable status e) in
    let public_message = some (failure_message retryable status) in
    if retryable
    then retryable_worker_error code public_message e.partial_result
    else terminal_worker_error code public_message e.partial_result

-- What a customer sees of a failure.
pub record PublicFailure : Type 0 where
  pub code : Text
  pub message : Text
  pub correlation_id : Option ℕ
  pub retryable : Bool

unfoldable pub public_failure_payload : WorkerFailure → Option ℕ → PublicFailure
public_failure_payload f correlation_id = record {
  code = f.code;
  message = f.public_message;
  correlation_id = correlation_id;
  retryable = f.retryable;
}
