-- ===== src/Worker/Lifecycle/Marks.antt =====
-- The transactions of an attempt refine the operations on views: the outcome and the tables after it
-- are those of the abstract operation, on every branch.
use bevoac_dev.Prelude.{
  ℕ, ◌≡◌, refl, ap, sym, ◌∙◌, inl, inr, Bool, true, false, Option, none, some, List, ◌==◌, is_some,
  if◌then◌else◌, arith, Option-cases,
}
use bevoac_dev.Prelude.Text.{Text, utf8_length}
use bevoac_dev.Database.{
  Db, ScanStatus, AttemptStatus, ScanRow, LedgerEntry, EventType, BillingState, consumed, refunded,
  scan_reserved, scan_consumed, scan_refunded, event_eq, select_scan, update_scan, update_attempt,
}
use bevoac_dev.Worker.Errors.{Outcome, ok, raised}
use bevoac_dev.Worker.Store.Results.{
  ResultCodec, Limits, ScanResult, exceeds, save_result, size_error,
}
use bevoac_dev.Worker.Store.Marks.{
  Owner, is_owned, ErrorInfo, mark_resource_preflight, skip_unowned, close_scan, done_row,
  failed_row, mark_completed, mark_retryable, mark_failed, save_optional,
}
use bevoac_dev.Worker.Lifecycle.{
  View, view, view_row, at_scan, owns, owns_scan, bill, complete, fail, release,
}
use bevoac_dev.Worker.Lifecycle.Primitives.{
  view-update_scan, view-update_attempt, view-transition_billing_state, view-save_result,
}

abbrev pub too_big : ResultCodec → Limits → ScanResult → Bool
too_big codec limits result = exceeds (utf8_length (codec.encode result)) limits.max_result_bytes

abbrev pub too_big_opt : ResultCodec → Limits → Option ScanResult → Bool
too_big_opt codec limits none = false
too_big_opt codec limits (some result) = too_big codec limits result

pub save_result-outcome :
    (codec : ResultCodec) (limits : Limits) (id tenant now : ℕ) (result : ScanResult) (db : Db)
    → (save_result codec limits id tenant now result db).0
      ≡ (if too_big codec limits result then raised size_error else ok tt)
unfolding save_result
save_result-outcome codec limits id tenant now result db = ground arith

-- an error keeps its value at any type
abbrev erase : Outcome (Unit {0}) → Outcome Bool
erase (ok _) = ok true
erase (raised e) = raised e

-- what a transaction that stores a result and closes the scan returns
abbrev pub closes : Bool → Bool → Outcome Bool
closes owned big = if owned then if big then raised size_error else ok true else ok false

pub either {ℓ} : {A : Type ℓ} (b : Bool) (x y : A) → x ≡ y → x ≡ (if b then x else y)
either true x y p = refl
either false x y p = p

module _ (o : Owner) where
  -- The tests of the code and of the views agree.
  hit-owns :
      (change : ScanRow → ScanRow) (db : Db)
      → (update_scan o.scan_id (is_owned o) change db).1 ≡ owns_scan o (view db o.scan_id)
  unfolding update_scan view view_row
  hit-owns change db = ground arith

  select-owns :
      (db : Db) → is_some (select_scan o.scan_id (is_owned o) db) ≡ owns_scan o (view db o.scan_id)
  unfolding select_scan view view_row
  select-owns db = ground arith

  -- Without ownership a guarded operation changes nothing.
  at_scan-unowned :
      (f : View → View) (db : Db) (j : ℕ)
      → owns_scan o (view db o.scan_id) ≡ false
      → at_scan o.scan_id j (λ v. if owns o v then f v else v) (view db j) ≡ view db j
  at_scan-unowned f db j h = ground arith

  module _ (change : ScanRow → ScanRow) (f : View → View)
      (moves : (l : List LedgerEntry) (r : ScanRow)
        → view_row l o.scan_id (change r) ≡ f (view_row l o.scan_id r)) where
    view-update_owned :
        (db : Db) (j : ℕ)
        → view (update_scan o.scan_id (is_owned o) change db).0 j
          ≡ at_scan o.scan_id j (λ v. if owns o v then f v else v) (view db j)
    unfolding view_row
    view-update_owned db j =
        view-update_scan o.scan_id (is_owned o) change (owns o) f (λ l r. refl) moves db j

    module _ (target : BillingState) (event : EventType)
        (closing : event_eq event scan_reserved ≡ false)
        (stays : (v : View) → (f v).tenant_id ≡ v.tenant_id) (complaint : Text) (now : ℕ)
        (finish : Db → Db) (quiet : (db : Db) (j : ℕ) → view (finish db) j ≡ view db j) where
      billed_after :
          (db : Db) (j : ℕ)
          → owns_scan o (view db o.scan_id) ≡ true
          → at_scan o.scan_id j
              (λ v. if v.tenant_id == o.tenant_id then bill target event v else v)
              (at_scan o.scan_id j (λ v. if owns o v then f v else v) (view db j))
            ≡ at_scan o.scan_id j (λ v. if owns o v then bill target event (f v) else v) (view db j)
      billed_after db j h = elim (Option-cases (view db j)) [
        | inl e ↦ ground (arith, e)
        | inr (v, e) ↦ ground (arith, e, stays v)
      ]

      view-close_scan :
          (db : Db)
          → owns_scan o (view db o.scan_id) ≡ true
          → ((close_scan o change target event complaint now finish db).0 ≡ ok true)
            × ((j : ℕ)
                → view (close_scan o change target event complaint now finish db).1 j
                  ≡ at_scan o.scan_id j
                      (λ v. if owns o v then bill target event (f v) else v)
                      (view db j))
      unfolding close_scan
      view-close_scan db h =
          let hit = hit-owns change db ∙ h in
          (
            rw hit,
            λ j. rw hit (
                quiet _ j
                ∙ (view-transition_billing_state target o.scan_id o.tenant_id now event _ j closing
                    ∙ (rw (view-update_owned db j) (billed_after db j h)))),
          )

      -- A stored result, or the error of storing it, then the closing of the scan.
      store_then_close :
          (saved : Outcome (Unit {0}) × Db) (big : Bool) (db : Db)
          → saved.0 ≡ (if big then raised size_error else ok tt)
          → ((j : ℕ) → view saved.1 j ≡ view db j)
          → owns_scan o (view db o.scan_id) ≡ true
          → let r : Outcome Bool × Db = elim saved.0 [
            | raised e ↦ (raised e, saved.1)
            | ok _ ↦ close_scan o change target event complaint now finish saved.1
          ] in
            (r.0 ≡ closes true big)
            × ((j : ℕ)
                → view r.1 j ≡ (
                    if big
                    then view db j
                    else at_scan o.scan_id j
                        (λ v. if owns o v then bill target event (f v) else v)
                        (view db j)))
      store_then_close (raised e, db') true db h same owned = (ap erase h, same)
      store_then_close (raised e, db') false db h same owned = cc
      store_then_close (ok _, db') true db h same owned = cc
      store_then_close (ok _, db') false db h same owned =
          let (out, views) = view-close_scan db' (rw (same o.scan_id) owned) in
          (out, λ j. views j ∙ rw (same j))

module _ (codec : ResultCodec) (limits : Limits) (o : Owner) (now : ℕ) where
  view-skip_unowned : (db : Db) (j : ℕ) → view (skip_unowned o.attempt_id now db) j ≡ view db j
  unfolding skip_unowned view update_attempt
  view-skip_unowned db j = ground arith

  -- `mark_completed` throws, and changes no view, exactly when the attempt owns the scan and the
  -- result is too large; otherwise it returns whether the attempt owns the scan, and the tables
  -- change by `complete`: the owned scan is DONE and charged once, every other one is as before.
  pub mark_completed-refines :
      (result : ScanResult) (db : Db)
      → let big = too_big codec limits result in
        let owned = owns_scan o (view db o.scan_id) in
        ((mark_completed codec limits o result now db).0 ≡ closes owned big)
        × ((j : ℕ)
            → view (mark_completed codec limits o result now db).1 j
              ≡ (if big then view db j else at_scan o.scan_id j (complete o) (view db j)))
  unfolding mark_completed done_row view_row event_eq
  mark_completed-refines result db = elim (Option-cases (select_scan o.scan_id (is_owned o) db)) [
    | inl e ↦
        let unowned = sym (select-owns o db) ∙ ap is_some e in
        rw (e, mark_completed)
          (
            rw unowned,
            λ j.
                view-skip_unowned db j
                ∙ either _ (view db j) _ (sym (at_scan-unowned o _ db j unowned)),
          )
    | inr (r, e) ↦
        let owned = sym (select-owns o db) ∙ ap is_some e in
        rw (e, mark_completed)
          (rw owned (
            store_then_close o (done_row now) (λ v. record v { status = ScanStatus.done })
              (λ l r. refl) consumed scan_consumed refl (λ v. refl) _ now _
              (λ db j. view-update_attempt _ _ _ db j)
              (save_result codec limits o.scan_id o.tenant_id now result db) _ db
              (save_result-outcome codec limits o.scan_id o.tenant_id now result db)
              (view-save_result codec limits o.scan_id o.tenant_id now result db) owned))
  ]

  save_optional-outcome :
      (result : Option ScanResult) (db : Db)
      → (save_optional codec limits o.scan_id o.tenant_id now result db).0
        ≡ (if too_big_opt codec limits result then raised size_error else ok tt)
  unfolding save_optional
  save_optional-outcome none db = refl
  save_optional-outcome (some result) db =
      save_result-outcome codec limits o.scan_id o.tenant_id now result db

  view-save_optional :
      (result : Option ScanResult) (db : Db) (j : ℕ)
      → view (save_optional codec limits o.scan_id o.tenant_id now result db).1 j ≡ view db j
  unfolding save_optional
  view-save_optional none db j = refl
  view-save_optional (some result) db j =
      view-save_result codec limits o.scan_id o.tenant_id now result db j

  -- `mark_failed`, likewise: the owned scan is FAILED and refunded once, unless the stored result is
  -- too large, when the call throws and changes no view.
  pub mark_failed-refines :
      (info : ErrorInfo) (result : Option ScanResult) (status : AttemptStatus) (db : Db)
      → let big = too_big_opt codec limits result in
        let owned = owns_scan o (view db o.scan_id) in
        ((mark_failed codec limits o info result status now db).0 ≡ closes owned big)
        × ((j : ℕ)
            → view (mark_failed codec limits o info result status now db).1 j
              ≡ (if big then view db j else at_scan o.scan_id j (fail o) (view db j)))
  unfolding mark_failed failed_row view_row event_eq
  mark_failed-refines info result status db =
      elim (Option-cases (select_scan o.scan_id (is_owned o) db)) [
        | inl e ↦
            let unowned = sym (select-owns o db) ∙ ap is_some e in
            rw (e, mark_failed)
              (
                rw unowned,
                λ j.
                    view-update_attempt _ _ _ _ j
                    ∙ (view-skip_unowned db j
                        ∙ either _ (view db j) _ (sym (at_scan-unowned o _ db j unowned))),
              )
        | inr (r, e) ↦
            let owned = sym (select-owns o db) ∙ ap is_some e in
            rw (e, mark_failed)
              (rw owned (
                store_then_close o _ (λ v. record v { status = ScanStatus.failed }) (λ l r. refl)
                  refunded scan_refunded refl (λ v. refl) _ now _
                  (λ db j. view-update_attempt _ _ _ db j)
                  (save_optional codec limits o.scan_id o.tenant_id now result db) _ db
                  (save_optional-outcome result db) (view-save_optional result db) owned))
      ]

module _ (o : Owner) (now : ℕ) where
  -- `mark_retryable` never throws: it returns whether the attempt owns the scan, and gives an owned
  -- scan back to PENDING, with no owner and no billing entry.
  pub mark_retryable-refines :
      (info : ErrorInfo) (db : Db)
      → ((mark_retryable o info now db).0 ≡ ok (owns_scan o (view db o.scan_id)))
        × ((j : ℕ)
            → view (mark_retryable o info now db).1 j ≡ at_scan o.scan_id j (release o) (view db j))
  unfolding mark_retryable view_row
  mark_retryable-refines info db = (
    ap ok (hit-owns o _ db),
    λ j.
        view-update_attempt _ _ _ _ j
        ∙ view-update_owned o _ (λ v. record v { status = ScanStatus.pending; owner = none })
            (λ l r. refl) db j,
  )

  -- `mark_resource_preflight` returns whether the attempt owns the scan, and touches no view.
  pub mark_resource_preflight-refines :
      (count : ℕ) (limit : Option ℕ) (db : Db)
      → ((mark_resource_preflight o count limit now db).0 ≡ ok (owns_scan o (view db o.scan_id)))
        × ((j : ℕ) → view (mark_resource_preflight o count limit now db).1 j ≡ view db j)
  unfolding mark_resource_preflight view_row
  mark_resource_preflight-refines count limit db = (
    ap ok (hit-owns o _ db),
    λ j. view-update_owned o _ (λ v. v) (λ l r. refl) db j ∙ ground arith,
  )
