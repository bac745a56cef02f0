-- ===== src/Worker/Scores/Counts.antt =====
-- Nothing is lost or counted twice.
use bevoac_dev.Prelude.{ℕ, ◌+◌, ◌≤◌, ◌≡◌, refl, Option, List, [], ◌∷◌, length, arith}
use bevoac_dev.Prelude.Text.{Text, text, or_text, to_upper}
use bevoac_dev.Worker.Statuses.{Check}
use bevoac_dev.Worker.Scores.{
  RiskStatus, risk_pass, risk_warn, risk_fail, status_from_risk_count, Counters, count_one,
  count_checks, count_checks_by_status, Kpi, bump, by_status, build_scan_scorecard,
}

abbrev pub counted : Counters → ℕ
counted c = c.passed + (c.failed_checks + (c.warning + (c.info + c.unknown)))

counted-count_one : (status : Text) (c : Counters) → counted (count_one status c) ≡ counted c + 1
unfolding count_one
counted-count_one status c = ground arith

counted-count_checks :
    (l : List Check) (c : Counters) → counted (count_checks l c) ≡ counted c + length l
unfolding count_checks
counted-count_checks [] c = omega arith
counted-count_checks (k ∷ l) c =
    let p = counted-count_one (to_upper (or_text k.status (text "UNKNOWN"))) c in
    let q = counted-count_checks l (count_one (to_upper (or_text k.status (text "UNKNOWN"))) c) in
    omega arith

-- The five counters add up to the number of checks, whatever their statuses.
pub count_checks_by_status-total :
    (checks : List Check) → counted (count_checks_by_status checks) ≡ length checks
unfolding count_checks_by_status
count_checks_by_status-total checks =
    let p =
      counted-count_checks checks
        (record { passed = 0; failed_checks = 0; warning = 0; info = 0; unknown = 0 }) in
    omega arith

abbrev pub sum_counts : List (Text × ℕ) → ℕ
sum_counts [] = 0
sum_counts ((k, n) ∷ rest) = n + sum_counts rest

sum-bump : (status : Text) (l : List (Text × ℕ)) → sum_counts (bump status l) ≡ sum_counts l + 1
unfolding bump
sum-bump status [] = refl
sum-bump status ((k, n) ∷ l) = ground (arith, sum-bump status l)

sum-by_status :
    (l : List (Kpi × Text)) (acc : List (Text × ℕ))
    → sum_counts (by_status l acc) ≡ sum_counts acc + length l
unfolding by_status
sum-by_status [] acc = omega arith
sum-by_status ((k, s) ∷ l) acc =
    let p = sum-bump (or_text k.status (text "UNKNOWN")) acc in
    let q = sum-by_status l (bump (or_text k.status (text "UNKNOWN")) acc) in omega arith

-- The counts by status of a scorecard add up to its total, and the total is the number of its KPIs.
pub build_scan_scorecard-total :
    (web entra identity : List Kpi) (infra : List (Text × List Kpi))
    → let card = build_scan_scorecard web entra identity infra in
      (sum_counts card.status_counts ≡ card.total_kpis) × (length card.kpis ≡ card.total_kpis)
unfolding build_scan_scorecard
build_scan_scorecard-total web entra identity infra =
    let p = sum-by_status (build_scan_scorecard web entra identity infra).kpis [] in
    (omega arith, refl)

abbrev pub rank : RiskStatus → ℕ
rank risk_pass = 0
rank risk_warn = 1
rank risk_fail = 2

-- A greater count of risks never has a better status.
pub status_from_risk_count-rank_le :
    (m n : ℕ) (warning_at critical_at : Option ℕ)
    → m ≤ n
    → rank (status_from_risk_count m warning_at critical_at)
      ≤ rank (status_from_risk_count n warning_at critical_at)
unfolding status_from_risk_count
status_from_risk_count-rank_le m n warning_at critical_at h = ground arith
