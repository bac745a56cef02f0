-- ===== src/Worker/Lifecycle/Reject.antt =====
-- `mark_rejected_message` refines the rejection of a scan that no attempt has taken.
use bevoac_dev.Prelude.{
  ℕ, ◌≡◌, refl, ap, sym, ◌∙◌, inl, inr, Bool, true, false, ◌&&◌, Option, none, some, ◌==◌,
  if◌then◌else◌, arith, Option-cases, Bool-cases,
}
use bevoac_dev.Prelude.Text.{Text}
use bevoac_dev.Database.{
  Db, ScanStatus, refunded, scan_refunded, event_eq, is_pending, select_scan, update_scan,
}
use bevoac_dev.Worker.Errors.{Outcome, ok, raised}
use bevoac_dev.Worker.Store.Transaction.{
  healthy, with_tenant_transaction, transaction-ok, transaction-raised,
}
use bevoac_dev.Worker.Store.Results.{ResultCodec, Limits, size_error, save_result}
use bevoac_dev.Worker.Store.Begin.{Claim}
use bevoac_dev.Worker.Store.Reject.{is_open, rejected_row, rejection_result, mark_rejected_message}
use bevoac_dev.Worker.Lifecycle.{View, view, view_row, at_scan, bill, reject}
use bevoac_dev.Worker.Lifecycle.Primitives.{
  view-update_scan, view-insert_attempt_quiet, view-transition_billing_state, view-save_result,
}
use bevoac_dev.Worker.Lifecycle.Marks.{too_big, closes, either, save_result-outcome}

abbrev pub opens : ℕ → View → Bool
opens tenant v = v.tenant_id == tenant && is_pending v.status

abbrev pub opens_scan : ℕ → Option View → Bool
opens_scan tenant none = false
opens_scan tenant (some v) = opens tenant v

abbrev to_failed : View → View
to_failed v = record v { status = ScanStatus.failed; owner = none }

module _ (codec : ResultCodec) (limits : Limits) (c : Claim) (message code : Option Text)
    (now : ℕ) where
  hit-opens :
      (db : Db)
      → (update_scan c.scan_id (is_open c.tenant_id) (rejected_row c message code now) db).1
        ≡ opens_scan c.tenant_id (view db c.scan_id)
  unfolding update_scan view view_row
  hit-opens db = ground arith

  view-rejected :
      (db : Db) (j : ℕ)
      → view (update_scan c.scan_id (is_open c.tenant_id) (rejected_row c message code now) db).0 j
        ≡ at_scan c.scan_id j (λ v. if opens c.tenant_id v then to_failed v else v) (view db j)
  unfolding view_row rejected_row
  view-rejected db j =
      view-update_scan c.scan_id _ _ (opens c.tenant_id) to_failed (λ l r. refl) (λ l r. refl) db j

  billed_after :
      (db : Db) (j : ℕ)
      → opens_scan c.tenant_id (view db c.scan_id) ≡ true
      → at_scan c.scan_id j
          (λ v. if v.tenant_id == c.tenant_id then bill refunded scan_refunded v else v)
          (at_scan c.scan_id j (λ v. if opens c.tenant_id v then to_failed v else v) (view db j))
        ≡ at_scan c.scan_id j (reject c.tenant_id) (view db j)
  billed_after db j h = elim (Option-cases (view db j)) [
    | inl e ↦ ground arith
    | inr (v, e) ↦ ground arith
  ]

  at_scan-closed :
      (db : Db) (j : ℕ)
      → opens_scan c.tenant_id (view db c.scan_id) ≡ false
      → (at_scan c.scan_id j (reject c.tenant_id) (view db j) ≡ view db j)
        × (at_scan c.scan_id j (λ v. if opens c.tenant_id v then to_failed v else v) (view db j)
            ≡ view db j)
  at_scan-closed db j h = ground arith

  module _ (db : Db) where
    abbrev rejected_db : Db
    rejected_db =
        (update_scan c.scan_id (is_open c.tenant_id) (rejected_row c message code now) db).0

    abbrev saved : Outcome (Unit {0}) × Db
    saved =
        save_result codec limits c.scan_id c.tenant_id now (rejection_result c message code)
          rejected_db

    stored : saved.0 ≡ (
        if too_big codec limits (rejection_result c message code) then raised size_error else ok tt)
    stored = save_result-outcome codec limits c.scan_id c.tenant_id now _ rejected_db

    -- the three ways of the call
    rejection_too_big :
        opens_scan c.tenant_id (view db c.scan_id) ≡ true
        → too_big codec limits (rejection_result c message code) ≡ true
        → mark_rejected_message codec limits c message code now db ≡ (raised size_error, saved.1)
    unfolding mark_rejected_message
    rejection_too_big h big = rw (hit-opens db, h, stored, big, mark_rejected_message)

    rejection_stored :
        opens_scan c.tenant_id (view db c.scan_id) ≡ true
        → too_big codec limits (rejection_result c message code) ≡ false
        → ((mark_rejected_message codec limits c message code now db).0 ≡ ok true)
          × ((j : ℕ)
              → view (mark_rejected_message codec limits c message code now db).1 j
                ≡ at_scan c.scan_id j (reject c.tenant_id) (view db j))
    unfolding mark_rejected_message event_eq
    rejection_stored h fits =
        rw (hit-opens db, h, stored, fits, mark_rejected_message)
          (
            refl,
            λ j.
                view-insert_attempt_quiet _ _ _ j
                ∙ (view-transition_billing_state refunded c.scan_id c.tenant_id now scan_refunded
                      saved.1 j refl
                    ∙ rw
                        (
                          view-save_result codec limits c.scan_id c.tenant_id now
                              (rejection_result c message code) rejected_db j,
                          view-rejected db j,
                        )
                        (billed_after db j h)),
          )

    rejection_closed :
        opens_scan c.tenant_id (view db c.scan_id) ≡ false
        → ((mark_rejected_message codec limits c message code now db).0 ≡ ok false)
          × ((j : ℕ)
              → view (mark_rejected_message codec limits c message code now db).1 j ≡ view db j)
    unfolding mark_rejected_message
    rejection_closed h =
        let views = λ (j : ℕ). view-rejected db j ∙ (at_scan-closed db j h).1 in
        elim (Option-cases (select_scan c.scan_id (λ r. r.tenant_id == c.tenant_id) rejected_db)) [
          | inl e ↦ rw (hit-opens db, h, e, mark_rejected_message) (refl, views)
          | inr (r, e) ↦
              rw (hit-opens db, h, e, mark_rejected_message)
                (refl, λ j. view-insert_attempt_quiet _ _ _ j ∙ views j)
        ]

  -- A rejection over a healthy connection throws, and no view changes, exactly when the scan is a PENDING
  -- one of the tenant and the stored error is too large; otherwise it returns whether the scan was such
  -- a one, which is then FAILED, without an owner, and refunded once. No other scan is touched.
  pub mark_rejected_message-refines :
      (db : Db)
      → let after =
          with_tenant_transaction healthy
            (mark_rejected_message codec limits c message code now)
            db in
        let big = too_big codec limits (rejection_result c message code) in
        (after.0 ≡ closes (opens_scan c.tenant_id (view db c.scan_id)) big)
        × ((j : ℕ)
            → view after.1 j
              ≡ (if big then view db j else at_scan c.scan_id j (reject c.tenant_id) (view db j)))
  mark_rejected_message-refines db =
      let m = mark_rejected_message codec limits c message code now in
      elim (Bool-cases (opens_scan c.tenant_id (view db c.scan_id))) [
        | inl unclaimed ↦
            elim (Bool-cases (too_big codec limits (rejection_result c message code))) [
              | inl big ↦
                  rw
                    (
                      transaction-raised m db (ap (λ x. x.0) (rejection_too_big db unclaimed big)),
                      unclaimed,
                      big,
                    )
                    (refl, λ j. refl)
              | inr fits ↦
                  let (out, views) = rejection_stored db unclaimed fits in
                  rw (transaction-ok m db out, unclaimed, fits) (refl, views)
            ]
        | inr shut ↦
            let (out, views) = rejection_closed db shut in
            rw (transaction-ok m db out, shut)
              (refl, λ j. views j ∙ either _ (view db j) _ (sym (at_scan-closed db j shut).0))
      ]
