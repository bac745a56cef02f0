-- ===== src/Worker/Scores.antt =====
-- lib/kpi-engine.js of the worker: risk counts, the counters of checks, and the scorecard of a scan. Its
-- percentages are floating-point numbers and left out.
pub mod Counts
use bevoac_dev.Prelude.{
  ℕ, ◌+◌, Bool, true, false, Option, none, some, List, [], ◌∷◌, ◌++◌, length, leb, if◌then◌else◌,
}
use bevoac_dev.Prelude.Text.{Text, text, text_eq, to_upper, or_text}
use bevoac_dev.Worker.Statuses.{Check}

pub data RiskStatus : Type 0 where
  risk_pass risk_warn risk_fail : RiskStatus

-- `statusFromRiskCount`; without `criticalAt` the limit is infinite
unfoldable pub status_from_risk_count : ℕ → (warning_at critical_at : Option ℕ) → RiskStatus
status_from_risk_count n warning_at critical_at =
    let warned =
      if leb (elim warning_at [ none ↦ 1 | some w ↦ w ]) n then risk_warn else risk_pass in
    elim critical_at [ none ↦ warned | some c ↦ if leb c n then risk_fail else warned ]

pub record Counters : Type 0 where
  pub passed : ℕ
  pub failed_checks : ℕ
  pub warning : ℕ
  pub info : ℕ
  pub unknown : ℕ

unfoldable pub count_one : Text → Counters → Counters
unfolding text_eq
count_one status c =
    if text_eq status (text "PASSED")
    then record c { passed = c.passed + 1 }
    else if text_eq status (text "FAILED")
    then record c { failed_checks = c.failed_checks + 1 }
    else if text_eq status (text "WARNING")
    then record c { warning = c.warning + 1 }
    else if text_eq status (text "INFO")
    then record c { info = c.info + 1 }
    else record c { unknown = c.unknown + 1 }

-- the loop of `countChecksByStatus`
unfoldable pub count_checks : List Check → Counters → Counters
unfolding count_one to_upper
count_checks [] c = c
count_checks (k ∷ rest) c =
    count_checks rest (count_one (to_upper (or_text k.status (text "UNKNOWN"))) c)

unfoldable pub count_checks_by_status : List Check → Counters
unfolding count_checks
count_checks_by_status checks =
    count_checks checks
      (record { passed = 0; failed_checks = 0; warning = 0; info = 0; unknown = 0 })

-- the part of a KPI that the scorecard reads
pub record Kpi : Type 0 where
  pub kpi_id : Text
  pub status : Option Text

-- `acc[status] = (acc[status] || 0) + 1`
unfoldable pub bump : Text → List (Text × ℕ) → List (Text × ℕ)
unfolding text_eq
bump status [] = (status, 1) ∷ []
bump status ((k, n) ∷ rest) =
    let later = bump status rest in if text_eq k status then (k, n + 1) ∷ rest else (k, n) ∷ later

unfoldable pub by_status : List (Kpi × Text) → List (Text × ℕ) → List (Text × ℕ)
unfolding bump
by_status [] acc = acc
by_status ((kpi, source) ∷ rest) acc =
    by_status rest (bump (or_text kpi.status (text "UNKNOWN")) acc)

-- `add`: the KPIs of a module, with its name
unfoldable pub add_kpis : Text → List Kpi → List (Kpi × Text)
add_kpis source [] = []
add_kpis source (k ∷ rest) = (k, source) ∷ add_kpis source rest

unfoldable pub add_modules : List (Text × List Kpi) → List (Kpi × Text)
unfolding add_kpis
add_modules [] = []
add_modules ((source, kpis) ∷ rest) = add_kpis source kpis ++ add_modules rest

pub record Scorecard : Type 0 where
  pub total_kpis : ℕ
  pub status_counts : List (Text × ℕ)
  pub kpis : List (Kpi × Text)

-- `buildScanScorecard`, of the KPIs of the web, Entra and identity modules and of the infrastructure's
unfoldable pub build_scan_scorecard :
    (web entra identity : List Kpi) → List (Text × List Kpi) → Scorecard
unfolding add_modules by_status
build_scan_scorecard web entra identity infra =
    let all_kpis = add_modules (
      (text "web", web)
      ∷ (text "entra", entra)
      ∷ (text "identity_admin_posture", identity)
      ∷ infra) in
    record { total_kpis = length all_kpis; status_counts = by_status all_kpis []; kpis = all_kpis }
