-- ===== src/Tests/Statuses.antt =====
-- The verdicts of two modules, and three runs of `withRetry`.
use bevoac_dev.Prelude.{
  ℕ, ◌+◌, ◌*◌, ◌≤◌, ◌≡◌, refl, max, true, false, ◌||◌, none, some, [], ◌∷◌, map, any, ltb, ◌==◌,
  All, if◌then◌else◌, arith,
}
use bevoac_dev.Prelude.Text.{text, text_eq, to_upper, upper_unit}
use bevoac_dev.Worker.Errors.{ok, raised, js, is_retryable_error}
use bevoac_dev.Worker.Statuses.{
  Check, ModuleResult, exec_failed, fail, warn, pass, partial_errors_count,
  compute_execution_status, compute_security_posture, is_exec_failed, is_partial,
  decorate_module_status, rollup_execution_status, rollup_security_posture, analyzed_count,
  first_number, scan_checks,
}
use bevoac_dev.Worker.Statuses.Verdicts.{
  alarms, warns, compute_security_posture-meaning, rollup-failed,
}
use bevoac_dev.Worker.Retry.{Policy, Calls, with_retry}
use bevoac_dev.Worker.Retry.Bounds.{Ends, with_retry-sleeps, with_retry-Ends}
use bevoac_dev.Tests.Data.{throttled}

abbrev low_check : Check
low_check = record { status = some (text "FAILED"); severity = some (text "low") }

abbrev critical_check : Check
critical_check = record { status = some (text "FAILED"); severity = some (text "CRITICAL") }

abbrev good_module : ModuleResult
good_module = record {
  status = some (text "OK");
  has_error = false;
  partial_errors = [];
  counts = some 3 ∷ [];
  summary_counts = [];
  checks = [];
}

abbrev risky_module : ModuleResult
risky_module = record good_module { checks = low_check ∷ critical_check ∷ [] }

abbrev broken_module : ModuleResult
broken_module = record good_module { has_error = true }

compute_security_posture-meaning_example :
    let execution = compute_execution_status risky_module in
    compute_security_posture risky_module ≡ (
      if is_exec_failed execution || any alarms risky_module.checks
      then fail
      else if is_partial execution
          || any warns risky_module.checks
          || ltb 0 (partial_errors_count risky_module)
      then warn
      else pass)
compute_security_posture-meaning_example = compute_security_posture-meaning risky_module

broken_audit :
    rollup_execution_status (map decorate_module_status (broken_module ∷ good_module ∷ []))
    ≡ exec_failed
unfolding rollup_execution_status decorate_module_status compute_execution_status
broken_audit = refl

rollup-failed_example :
    rollup_security_posture (map decorate_module_status (broken_module ∷ good_module ∷ [])) ≡ fail
rollup-failed_example = rollup-failed (broken_module ∷ good_module ∷ []) broken_audit

good_audit : rollup_security_posture (map decorate_module_status (good_module ∷ [])) ≡ pass
unfolding rollup_security_posture decorate_module_status compute_security_posture
    compute_execution_status analyzed_count first_number scan_checks text_eq to_upper upper_unit
good_audit = refl

abbrev policy : Policy
policy = record {
  retries = 3;
  base_delay_ms = 500;
  max_delay_ms = 8000;
  should_retry = is_retryable_error;
}

-- Azure throttles the first call, and answers the second.
abbrev calls : Calls ℕ
calls = record {
  answer = λ n. if n == 0 then raised (js throttled) else ok n;
  retry_after = λ n. 2;
  jitter = λ n. 17;
  aborted = λ n. none;
  sleep_aborted = λ n. none;
}

with_retry-sleeps_example :
    All (λ ms. ms ≤ max (2 * 1000) (8000 + 249)) (with_retry policy calls).sleeps
with_retry-sleeps_example = with_retry-sleeps policy calls 2 (λ n. omega arith) (λ n. omega arith)

with_retry-Ends_example : (m : ℕ) × Ends policy calls (with_retry policy calls) 0 3 m
with_retry-Ends_example = with_retry-Ends policy calls (λ n. refl) (λ n. refl)
