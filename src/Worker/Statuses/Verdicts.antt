-- ===== src/Worker/Statuses/Verdicts.antt =====
-- What the verdicts mean: the loop with its early exit agrees with a description of the failed checks.
use bevoac_dev.Prelude.{
  ◌≡◌, refl, sym, ap, ◌∙◌, Bool, true, false, not, ◌&&◌, ◌||◌, List, [], ◌∷◌, ◌++◌, map, any, ltb,
  if◌then◌else◌, Bool-cases, inl, inr, arith,
}
use bevoac_dev.Worker.Statuses.{
  Check, ModuleResult, ExecutionStatus, exec_failed, exec_partial, exec_success, Posture, fail,
  warn, pass, partial_errors_count, compute_execution_status, high_risk, warn_risk, check_failed,
  check_severity, scan_checks, is_partial, is_exec_failed, compute_security_posture, Decorated,
  decorate_module_status, execution_of, posture_of, is_fail, is_warn, rollup_execution_status,
  rollup_security_posture,
}

-- a failed check of high risk, and one of lower risk
abbrev pub alarms : Check → Bool
alarms c = check_failed c && high_risk (check_severity c)

abbrev pub warns : Check → Bool
warns c = check_failed c && (not (high_risk (check_severity c)) && warn_risk (check_severity c))

scan_checks-high : (l : List Check) (w : Bool) → (scan_checks l w).0 ≡ any alarms l
unfolding scan_checks
scan_checks-high [] w = refl
scan_checks-high (c ∷ rest) w =
    let p = scan_checks-high rest w in let q = scan_checks-high rest true in ground arith

scan_checks-warn :
    (l : List Check) (w : Bool) → any alarms l ≡ false → (scan_checks l w).1 ≡ (w || any warns l)
unfolding scan_checks
scan_checks-warn [] w h = ground arith
scan_checks-warn (c ∷ rest) w h =
    let clear : any alarms rest ≡ false = ground arith in
    let p = scan_checks-warn rest w clear in
    let q = scan_checks-warn rest true clear in ground arith

-- The posture of a module is FAIL if its execution failed or a failed check is of high or critical
-- risk; otherwise WARN if the execution was partial, or another failed check or a partial error is
-- there; otherwise PASS. The order of the checks, and the early end of the loop, play no role.
pub compute_security_posture-meaning :
    (m : ModuleResult)
    → let execution = compute_execution_status m in
      compute_security_posture m ≡ (
        if is_exec_failed execution || any alarms m.checks
        then fail
        else if is_partial execution || any warns m.checks || ltb 0 (partial_errors_count m)
        then warn
        else pass)
unfolding compute_security_posture
compute_security_posture-meaning m =
    let execution = compute_execution_status m in
    let high = scan_checks-high m.checks (is_partial execution) in
    elim (Bool-cases (any alarms m.checks)) [
      | inl loud ↦ rw (high, loud) (ground arith)
      | inr clear ↦
          rw (high, clear, scan_checks-warn m.checks (is_partial execution) clear) (ground arith)
    ]

any-append {ℓ} : {A : Type ℓ} (f : A → Bool) (a b : List A) → any f (a ++ b) ≡ (any f a || any f b)
any-append f [] b = refl
any-append f (x ∷ a) b = let p = any-append f a b in ground arith

any-swap {ℓ} : {A : Type ℓ} (f : A → Bool) (a b : List A) → any f (a ++ b) ≡ any f (b ++ a)
any-swap f a b = rw (any-append f a b, any-append f b a) (ground arith)

-- A module that exchanges two runs of its checks has the same posture.
pub compute_security_posture-swap :
    (m : ModuleResult) (a b : List Check)
    → compute_security_posture (record m { checks = a ++ b })
      ≡ compute_security_posture (record m { checks = b ++ a })
unfolding compute_execution_status
compute_security_posture-swap m a b =
    compute_security_posture-meaning (record m { checks = a ++ b })
    ∙ rw (any-swap alarms a b, any-swap warns a b)
        (sym (compute_security_posture-meaning (record m { checks = b ++ a })))

failed-fail :
    (m : ModuleResult)
    → is_exec_failed (compute_execution_status m) ≡ true
    → is_fail (compute_security_posture m) ≡ true
unfolding compute_security_posture
failed-fail m h = rw h refl

partial-not_pass :
    (m : ModuleResult)
    → is_partial (compute_execution_status m) ≡ true
    → (is_fail (compute_security_posture m) || is_warn (compute_security_posture m)) ≡ true
partial-not_pass m h = rw (compute_security_posture-meaning m, h) (ground arith)

any-implies {ℓ} :
    {A : Type ℓ} (f g h : A → Bool) (l : List A)
    → ((x : A) → f x ≡ true → (g x || h x) ≡ true)
    → any f l ≡ true
    → (any g l || any h l) ≡ true
any-implies f g h [] imp p = p
any-implies f g h (x ∷ l) imp p = elim (Bool-cases (f x)) [
  | inl here ↦ let q = imp x here in ground arith
  | inr off ↦ let q = any-implies f g h l imp (any-rest (f x) (any f l) off p) in ground arith
]
  where
    any-rest : (a b : Bool) → a ≡ false → (a || b) ≡ true → b ≡ true
    any-rest a b e q = rw e at q

any-map_decorate :
    (f : Decorated → Bool) (ms : List ModuleResult)
    → any f (map decorate_module_status ms) ≡ any (λ m. f (decorate_module_status m)) ms
any-map_decorate f [] = refl
any-map_decorate f (m ∷ ms) = ap (λ b. f (decorate_module_status m) || b) (any-map_decorate f ms)

abbrev failed_of : ModuleResult → Bool
failed_of m = is_exec_failed (execution_of (decorate_module_status m))

abbrev partial_of : ModuleResult → Bool
partial_of m = is_partial (execution_of (decorate_module_status m))

abbrev fail_of : ModuleResult → Bool
fail_of m = is_fail (posture_of (decorate_module_status m))

abbrev warn_of : ModuleResult → Bool
warn_of m = is_warn (posture_of (decorate_module_status m))

failed_is_fail : (m : ModuleResult) → failed_of m ≡ true → (fail_of m || fail_of m) ≡ true
unfolding decorate_module_status
failed_is_fail m h = rw (failed-fail m h) refl

partial_is_warn : (m : ModuleResult) → partial_of m ≡ true → (fail_of m || warn_of m) ≡ true
unfolding decorate_module_status
partial_is_warn m h = partial-not_pass m h

abbrev execution_verdict : Bool → Bool → ExecutionStatus
execution_verdict a b = if a then exec_failed else if b then exec_partial else exec_success

abbrev posture_verdict : Bool → Bool → Posture
posture_verdict c d = if c then fail else if d then warn else pass

verdict-failed :
    (a b c d : Bool)
    → (a ≡ true → (c || c) ≡ true)
    → execution_verdict a b ≡ exec_failed
    → posture_verdict c d ≡ fail
verdict-failed a b true d h e = refl
verdict-failed true b false d h e = let q = h refl in ground arith
verdict-failed false true false d h e = ground arith
verdict-failed false false false d h e = ground arith

verdict-pass :
    (a b c d : Bool)
    → (a ≡ true → (c || c) ≡ true)
    → (b ≡ true → (c || d) ≡ true)
    → posture_verdict c d ≡ pass
    → execution_verdict a b ≡ exec_success
verdict-pass a b true d h k e = ground arith
verdict-pass a b false true h k e = ground arith
verdict-pass true b false false h k e = let q = h refl in ground arith
verdict-pass false true false false h k e = let q = k refl in ground arith
verdict-pass false false false false h k e = refl

module _ (ms : List ModuleResult) where
  any_failed-fail :
      any failed_of ms ≡ true
      → (any (λ d. is_fail (posture_of d)) (map decorate_module_status ms)
          || any (λ d. is_fail (posture_of d)) (map decorate_module_status ms))
        ≡ true
  any_failed-fail h =
      rw (any-map_decorate (λ d. is_fail (posture_of d)) ms)
        (any-implies failed_of fail_of fail_of ms failed_is_fail h)

  any_partial-warn :
      any partial_of ms ≡ true
      → (any (λ d. is_fail (posture_of d)) (map decorate_module_status ms)
          || any (λ d. is_warn (posture_of d)) (map decorate_module_status ms))
        ≡ true
  any_partial-warn h =
      rw
        (
          any-map_decorate (λ d. is_fail (posture_of d)) ms,
          any-map_decorate (λ d. is_warn (posture_of d)) ms,
        )
        (any-implies partial_of fail_of warn_of ms partial_is_warn h)

  -- An audit whose decorated modules roll up to FAILED has the posture FAIL.
  pub rollup-failed :
      rollup_execution_status (map decorate_module_status ms) ≡ exec_failed
      → rollup_security_posture (map decorate_module_status ms) ≡ fail
  unfolding rollup_execution_status rollup_security_posture
  rollup-failed h =
      verdict-failed _ _ _ _
        (λ a.
          any_failed-fail (sym (any-map_decorate (λ d. is_exec_failed (execution_of d)) ms) ∙ a))
        h

  -- An audit with the posture PASS rolls up to SUCCESS.
  pub rollup-pass :
      rollup_security_posture (map decorate_module_status ms) ≡ pass
      → rollup_execution_status (map decorate_module_status ms) ≡ exec_success
  unfolding rollup_execution_status rollup_security_posture
  rollup-pass h =
      verdict-pass _ _ _ _
        (λ a.
          any_failed-fail (sym (any-map_decorate (λ d. is_exec_failed (execution_of d)) ms) ∙ a))
        (λ a. any_partial-warn (sym (any-map_decorate (λ d. is_partial (execution_of d)) ms) ∙ a)) h
