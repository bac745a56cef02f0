-- ===== src/Worker/Statuses.antt =====
-- lib/status-semantics.js of the worker: the execution status and the security posture of a module's
-- result, and of a whole audit.
pub mod Verdicts
use bevoac_dev.Prelude.{
  ℕ, Bool, true, false, ◌&&◌, ◌||◌, Option, none, some, List, [], ◌∷◌, any, length, ltb, ◌==◌,
  get_or, if◌then◌else◌,
}
use bevoac_dev.Prelude.Text.{Text, text, text_eq, to_upper, or_text}

-- a check of a module: null and absent fields are `none`
pub record Check : Type 0 where
  pub status : Option Text
  pub severity : Option Text

-- The fields of a module's result that the code reads. `has_error` is the truth of `error`; `counts`
-- are the values under `numericKeys`, in their order, and `summary_counts` those under `summaryKeys`
-- of `summary`, `none` where a value is no number.
pub record ModuleResult : Type 0 where
  pub status : Option Text
  pub has_error : Bool
  pub partial_errors : List Text
  pub counts : List (Option ℕ)
  pub summary_counts : List (Option ℕ)
  pub checks : List Check

pub data ExecutionStatus : Type 0 where
  exec_failed exec_partial exec_success : ExecutionStatus

pub data Posture : Type 0 where
  fail warn pass : Posture

abbrev pub partial_errors_count : ModuleResult → ℕ
partial_errors_count m = length m.partial_errors

unfoldable pub first_number : List (Option ℕ) → Option ℕ
first_number [] = none
first_number (none ∷ rest) = first_number rest
first_number (some n ∷ rest) = some n

unfoldable pub analyzed_count : ModuleResult → ℕ
unfolding first_number
analyzed_count m = elim (first_number m.counts) [
  | some n ↦ n
  | none ↦ get_or (first_number m.summary_counts) 0
]

unfoldable pub compute_execution_status : ModuleResult → ExecutionStatus
unfolding analyzed_count to_upper text_eq
compute_execution_status m =
    let raw_status = to_upper (or_text m.status []) in
    let errors = partial_errors_count m in
    let analyzed = analyzed_count m in
    if m.has_error
    then exec_failed
    else if text_eq raw_status (text "NOT_IMPLEMENTED")
    then exec_failed
    else if ltb 0 errors && analyzed == 0
    then exec_failed
    else if text_eq raw_status (text "FAILED") && analyzed == 0
    then exec_failed
    else if text_eq raw_status (text "PARTIAL")
        || text_eq raw_status (text "WARNING")
        || (ltb 0 errors && ltb 0 analyzed)
    then exec_partial
    else exec_success

-- `HIGH_RISK`
unfoldable pub high_risk : Text → Bool
unfolding text_eq
high_risk severity = text_eq severity (text "HIGH") || text_eq severity (text "CRITICAL")

-- `WARN_RISK`, or INFO
unfoldable pub warn_risk : Text → Bool
unfolding text_eq
warn_risk severity =
    (text_eq severity (text "MEDIUM") || text_eq severity (text "LOW"))
    || text_eq severity (text "INFO")

unfoldable pub check_failed : Check → Bool
unfolding to_upper text_eq
check_failed c = text_eq (to_upper (or_text c.status [])) (text "FAILED")

unfoldable pub check_severity : Check → Text
unfolding to_upper
check_severity c = to_upper (or_text c.severity (text "LOW"))

-- The loop over the checks, with `hasWarn` so far: `hasFailHigh` and `hasWarn` after it. A failed
-- check of high risk ends it.
unfoldable pub scan_checks : List Check → Bool → Bool × Bool
unfolding check_failed check_severity high_risk warn_risk
scan_checks [] has_warn = (false, has_warn)
scan_checks (c ∷ rest) has_warn =
    let after = scan_checks rest has_warn in
    let warned = scan_checks rest true in
    if check_failed c
    then if high_risk (check_severity c)
      then (true, has_warn)
      else if warn_risk (check_severity c)
      then warned
      else after
    else after

abbrev pub is_partial : ExecutionStatus → Bool
is_partial exec_partial = true
is_partial _ = false

abbrev pub is_exec_failed : ExecutionStatus → Bool
is_exec_failed exec_failed = true
is_exec_failed _ = false

unfoldable pub compute_security_posture : ModuleResult → Posture
unfolding compute_execution_status scan_checks
compute_security_posture m =
    let execution = compute_execution_status m in
    if is_exec_failed execution
    then fail
    else let (has_fail_high, has_warn) = scan_checks m.checks (is_partial execution) in
      if has_fail_high
      then fail
      else if has_warn || ltb 0 (partial_errors_count m)
      then warn
      else pass

abbrev pub is_fail : Posture → Bool
is_fail fail = true
is_fail _ = false

abbrev pub is_warn : Posture → Bool
is_warn warn = true
is_warn _ = false

-- `decorateModuleStatus`: the two verdicts that are put on a result
pub record Decorated : Type 0 where
  pub module_result : ModuleResult
  pub execution_status : Option ExecutionStatus
  pub security_posture : Option Posture

unfoldable pub decorate_module_status : ModuleResult → Decorated
unfolding compute_execution_status compute_security_posture
decorate_module_status m = record {
  module_result = m;
  execution_status = some (compute_execution_status m);
  security_posture = some (compute_security_posture m);
}

abbrev pub execution_of : Decorated → ExecutionStatus
execution_of d = get_or d.execution_status (compute_execution_status d.module_result)

abbrev pub posture_of : Decorated → Posture
posture_of d = get_or d.security_posture (compute_security_posture d.module_result)

unfoldable pub rollup_execution_status : List Decorated → ExecutionStatus
rollup_execution_status modules =
    if any (λ d. is_exec_failed (execution_of d)) modules
    then exec_failed
    else if any (λ d. is_partial (execution_of d)) modules
    then exec_partial
    else exec_success

unfoldable pub rollup_security_posture : List Decorated → Posture
rollup_security_posture modules =
    if any (λ d. is_fail (posture_of d)) modules
    then fail
    else if any (λ d. is_warn (posture_of d)) modules
    then warn
    else pass
