-- ===== src/Worker/Lifecycle/Primitives.antt =====
-- What the SQL statements of the store do to the views.
use bevoac_dev.Prelude.{
  ℕ, ◌≡◌, refl, Bool, false, not, ◌&&◌, ◌||◌, ◌+◌, suc, Option, none, some, List, [], ◌∷◌, any,
  ◌==◌, is_some, if◌then◌else◌, arith, ◌∙◌, Option-cases, Bool-cases, inl, inr,
}
use bevoac_dev.Prelude.Table.{Table, get, get-put}
use bevoac_dev.Database.{
  Db, ScanRow, AttemptRow, ResultRow, LedgerEntry, EventType, BillingState, scan_reserved,
  scan_consumed, scan_refunded, is_event, event_eq, update_scan, update_attempt,
  insert_attempt_quiet,
}
use bevoac_dev.Worker.Store.Results.{ResultCodec, Limits, ScanResult, save_result, exceeds}
use bevoac_dev.Prelude.Text.{utf8_length}
use bevoac_dev.Worker.Store.Billing.{
  latest_reservation, closing_entry, closed_ledger, transition_billing_state,
}
use bevoac_dev.Worker.Lifecycle.{View, view, view_row, count_events, at_scan, bill}

any_step : (b c : Bool) (n : ℕ) → c ≡ not (n == 0) → (b || c) ≡ not ((if b then 1 else 0) + n == 0)
any_step b c n h = ground arith

pub any-count_events :
    (id tenant : ℕ) (event : EventType) (l : List LedgerEntry)
    → any (is_event id tenant event) l ≡ not (count_events id tenant event l == 0)
unfolding count_events
any-count_events id tenant event [] = refl
any-count_events id tenant event (e ∷ l) =
    any_step (is_event id tenant event e) _ _ (any-count_events id tenant event l)

pub latest-count_events :
    (id tenant : ℕ) (l : List LedgerEntry)
    → is_some (latest_reservation id tenant l) ≡ not (count_events id tenant scan_reserved l == 0)
unfolding count_events latest_reservation
latest-count_events id tenant [] = refl
latest-count_events id tenant (e ∷ l) = ground (arith, latest-count_events id tenant l)

-- A closing entry counts for its own scan, tenant and kind alone.
pub is_event-closing :
    (id tenant j u : ℕ) (event kind : EventType) (now : ℕ) (row : LedgerEntry)
    → is_event j u kind (closing_entry id tenant event now row)
      ≡ (id == j && tenant == u && event_eq event kind)
unfolding is_event closing_entry
is_event-closing id tenant j u event kind now row = refl

-- Attempts are no part of a view.
pub view-update_attempt :
    (a : ℕ) (test : AttemptRow → Bool) (change : AttemptRow → AttemptRow) (db : Db) (j : ℕ)
    → view (update_attempt a test change db) j ≡ view db j
unfolding view update_attempt
view-update_attempt a test change db j = ground arith

pub view-insert_attempt_quiet :
    (a : ℕ) (row : AttemptRow) (db : Db) (j : ℕ)
    → view (insert_attempt_quiet a row db) j ≡ view db j
unfolding view insert_attempt_quiet
view-insert_attempt_quiet a row db j = ground arith

-- A test and a change of rows that act on the view.
module _ (id : ℕ) (test : ScanRow → Bool) (change : ScanRow → ScanRow) (vtest : View → Bool)
    (vchange : View → View)
    (sees : (l : List LedgerEntry) (r : ScanRow) → vtest (view_row l id r) ≡ test r)
    (moves : (l : List LedgerEntry) (r : ScanRow)
      → view_row l id (change r) ≡ vchange (view_row l id r)) where
  pub view-update_scan :
      (db : Db) (j : ℕ)
      → view (update_scan id test change db).0 j
        ≡ at_scan id j (λ v. if vtest v then vchange v else v) (view db j)
  unfolding view update_scan
  view-update_scan db j = elim (Option-cases (get db.scans id)) [
    | inl e ↦ ground arith
    | inr (r, e) ↦
        ground (arith, get-put id j (change r) db.scans, sees db.ledger r, moves db.ledger r)
  ]

-- The ledger after a billing transition, seen from any scan, tenant and kind.
pub count_events-closed_ledger :
    (id tenant j u : ℕ) (event kind : EventType) (now : ℕ) (row : LedgerEntry)
    (l : List LedgerEntry)
    → count_events j u kind (closed_ledger id tenant event now row l) ≡ (
        if id == j && tenant == u && event_eq event kind && count_events id tenant event l == 0
        then suc (count_events j u kind l)
        else count_events j u kind l)
unfolding closed_ledger count_events
count_events-closed_ledger id tenant j u event kind now row l =
    ground
      (arith, any-count_events id tenant event l, is_event-closing id tenant j u event kind now row)

abbrev billed_ledger :
    ℕ → ℕ → EventType → ℕ → Option LedgerEntry → List LedgerEntry → List LedgerEntry
billed_ledger id tenant event now none l = l
billed_ledger id tenant event now (some row) l = closed_ledger id tenant event now row l

mine : ℕ → View → Bool
mine tenant v = v.tenant_id == tenant

module _ (target : BillingState) (id tenant now : ℕ) where
  -- the entry is in the ledger, and the row's billing state is still to come
  view-billed_ledger :
      (event : EventType) (l : List LedgerEntry) (j : ℕ) (r : ScanRow) (found : Option LedgerEntry)
      → latest_reservation id tenant l ≡ found
      → event_eq event scan_reserved ≡ false
      → let v = view_row (billed_ledger id tenant event now found l) j r in
        record v { billing = target } ≡ (
          if id == j && r.tenant_id == tenant
          then bill target event (view_row l j r)
          else record (view_row l j r) { billing = target })
  unfolding view_row event_eq
  view-billed_ledger scan_reserved l j r found e h = cc
  view-billed_ledger event l j r none e h = ground (arith, latest-count_events id tenant l)
  view-billed_ledger event l j r (some row) e h = ground (
    arith,
    latest-count_events id tenant l,
    count_events-closed_ledger id tenant j r.tenant_id event scan_reserved now row l,
    count_events-closed_ledger id tenant j r.tenant_id event scan_consumed now row l,
    count_events-closed_ledger id tenant j r.tenant_id event scan_refunded now row l,
  )

  rebill : View → View
  rebill v = record v { billing = target }

  -- The row of the scan is billed after the ledger has its entry.
  at_scan-billed :
      (event : EventType) (db : Db) (j : ℕ) (found : Option LedgerEntry)
      → latest_reservation id tenant db.ledger ≡ found
      → event_eq event scan_reserved ≡ false
      → at_scan id j
          (λ v. if mine tenant v then rebill v else v)
          (view (record db { ledger = billed_ledger id tenant event now found db.ledger }) j)
        ≡ at_scan id j (λ v. if mine tenant v then bill target event v else v) (view db j)
  unfolding view mine rebill
  at_scan-billed event db j found e h = elim (Option-cases (get db.scans j)) [
    | inl none_there ↦ ground arith
    | inr (r, there) ↦ ground (arith, view-billed_ledger event db.ledger j r found e h)
  ]

  pub view-transition_billing_state :
      (event : EventType) (db : Db) (j : ℕ)
      → event_eq event scan_reserved ≡ false
      → view (transition_billing_state id tenant target event now db).0 j
        ≡ at_scan id j (λ v. if v.tenant_id == tenant then bill target event v else v) (view db j)
  unfolding transition_billing_state mine rebill view_row
  view-transition_billing_state event db j h =
      elim (Option-cases (latest_reservation id tenant db.ledger)) [
        | inl e ↦
            rw (e, transition_billing_state)
              (view-update_scan id _ _ (mine tenant) rebill (λ l r. refl) (λ l r. refl) _ j
                ∙ at_scan-billed event db j none e h)
        | inr (row, e) ↦
            rw (e, transition_billing_state)
              (view-update_scan id _ _ (mine tenant) rebill (λ l r. refl) (λ l r. refl) _ j
                ∙ at_scan-billed event db j (some row) e h)
      ]

keeps : View → View
keeps v = v

at_scan-keeps :
    (id tenant j : ℕ) (v : Option View)
    → at_scan id j (λ w. if mine tenant w then keeps w else w) v ≡ v
unfolding mine keeps
at_scan-keeps id tenant j v = ground arith

view-results :
    (db : Db) (t : Table ResultRow) (j : ℕ) → view (record db { results = t }) j ≡ view db j
unfolding view
view-results db t j = refl

-- The stored result touches no view.
pub view-save_result :
    (codec : ResultCodec) (limits : Limits) (id tenant now : ℕ) (result : ScanResult) (db : Db)
    (j : ℕ)
    → view (save_result codec limits id tenant now result db).1 j ≡ view db j
unfolding save_result mine keeps view_row
view-save_result codec limits id tenant now result db j =
    elim (Bool-cases (exceeds (utf8_length (codec.encode result)) limits.max_result_bytes)) [
      | inl big ↦ rw (big, save_result)
      | inr fits ↦
          rw (fits, save_result)
            (view-update_scan id _ _ (mine tenant) keeps (λ l r. refl) (λ l r. refl) _ j
              ∙ (at_scan-keeps id tenant j _ ∙ view-results db _ j))
    ]
