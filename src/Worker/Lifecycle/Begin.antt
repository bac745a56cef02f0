-- ===== src/Worker/Lifecycle/Begin.antt =====
-- `begin_attempt` refines the acquisition of a scan.
use bevoac_dev.Prelude.{
  ℕ, ◌≡◌, refl, ap, ◌∙◌, inl, inr, Bool, true, false, not, ◌&&◌, ◌||◌, Option, none, some, ◌==◌,
  is_some, if◌then◌else◌, arith, Option-cases, Bool-cases,
}
use bevoac_dev.Prelude.Table.{get, put, get-put}
use bevoac_dev.Database.{
  Db, ScanRow, AttemptRow, is_pending, select_scan, update_scan, update_attempt,
}
use bevoac_dev.Worker.Errors.{Outcome, ok, raised}
use bevoac_dev.Worker.Store.Transaction.{healthy, with_tenant_transaction}
use bevoac_dev.Worker.Store.Begin.{
  Claim, Begun, acquired, unique_violation, current_attempt, is_redelivery, supersede, owned_row,
  may_acquire, insert_started, acquire_scan, skip_attempt, begin_attempt,
}
use bevoac_dev.Worker.Lifecycle.{View, view, view_row, at_scan, acquire}
use bevoac_dev.Worker.Lifecycle.Primitives.{view-update_attempt, view-insert_attempt_quiet}

abbrev pub is_acquired : Outcome Begun → Bool
is_acquired (ok (acquired again previous)) = true
is_acquired _ = false

-- an acquisition that meets a used attempt id fails
abbrev started : Bool → Option ℕ → Bool → Outcome Begun
started again owner used = if used then raised unique_violation else ok (acquired again owner)

-- A delivery may take a scan of its tenant that is PENDING, or that the same message holds by an
-- earlier delivery.
unfoldable pub may_begin : Claim → Db → Bool
may_begin c db = elim (get db.scans c.scan_id) [
  | none ↦ false
  | some r ↦
      r.tenant_id == c.tenant_id
      && (is_pending r.status || is_redelivery c r (current_attempt db c.scan_id r))
]

-- … and the id of the attempt must be new.
unfoldable pub grants : Claim → Db → Bool
unfolding may_begin
grants c db = may_begin c db && not (is_some (get db.attempts c.attempt_id))

view-supersede :
    (owner : Option ℕ) (now : ℕ) (db : Db) (j : ℕ) → view (supersede owner now db) j ≡ view db j
unfolding supersede
view-supersede none now db j = refl
view-supersede (some a) now db j = view-update_attempt _ _ _ db j

scans-supersede : (owner : Option ℕ) (now : ℕ) (db : Db) → (supersede owner now db).scans ≡ db.scans
unfolding supersede update_attempt
scans-supersede none now db = refl
scans-supersede (some a) now db = ground arith

is_some-update_attempt :
    (a : ℕ) (test : AttemptRow → Bool) (change : AttemptRow → AttemptRow) (db : Db) (k : ℕ)
    → is_some (get (update_attempt a test change db).attempts k) ≡ is_some (get db.attempts k)
unfolding update_attempt
is_some-update_attempt a test change db k = elim (Option-cases (get db.attempts a)) [
  | inl e ↦ ground arith
  | inr (r, e) ↦ ground (arith, get-put a k (change r) db.attempts)
]

-- Superseding an attempt neither adds nor removes one.
attempts-supersede :
    (owner : Option ℕ) (now : ℕ) (db : Db) (k : ℕ)
    → is_some (get (supersede owner now db).attempts k) ≡ is_some (get db.attempts k)
unfolding supersede
attempts-supersede none now db k = refl
attempts-supersede (some a) now db k = is_some-update_attempt a _ _ db k

-- A row that is there and passes the test is written.
update_scan-hit :
    (id : ℕ) (test : ScanRow → Bool) (change : ScanRow → ScanRow) (db : Db) (r : ScanRow)
    → get db.scans id ≡ some r
    → test r ≡ true
    → update_scan id test change db ≡ (record db { scans = put id (change r) db.scans }, true)
unfolding update_scan
update_scan-hit id test change db r there h = rw (there, h, update_scan)

view-put :
    (id : ℕ) (row : ScanRow) (f : View → View) (r : ScanRow) (db : Db) (j : ℕ)
    → get db.scans id ≡ some r
    → view_row db.ledger id row ≡ f (view_row db.ledger id r)
    → view (record db { scans = put id row db.scans }) j ≡ at_scan id j f (view db j)
unfolding view
view-put id row f r db j there h = ground (arith, get-put id j row db.scans)

module _ (c : Claim) (now : ℕ) where
  ready : Bool → Option ℕ → Db → Db
  ready again owner db = if again then supersede owner now db else db

  get-ready :
      (again : Bool) (owner : Option ℕ) (db : Db)
      → get (ready again owner db).scans c.scan_id ≡ get db.scans c.scan_id
  unfolding ready
  get-ready true owner db = ap (λ t. get t c.scan_id) (scans-supersede owner now db)
  get-ready false owner db = refl

  attempts-ready :
      (again : Bool) (owner : Option ℕ) (db : Db)
      → is_some (get (ready again owner db).attempts c.attempt_id)
        ≡ is_some (get db.attempts c.attempt_id)
  unfolding ready
  attempts-ready true owner db = attempts-supersede owner now db c.attempt_id
  attempts-ready false owner db = refl

  view-ready :
      (again : Bool) (owner : Option ℕ) (db : Db) (j : ℕ)
      → view (ready again owner db) j ≡ view db j
  unfolding ready
  view-ready true owner db j = view-supersede owner now db j
  view-ready false owner db j = refl

  insert_started-outcome :
      (again : Bool) (owner : Option ℕ) (db : Db)
      → (insert_started c again owner now db).0
        ≡ started again owner (is_some (get db.attempts c.attempt_id))
  unfolding insert_started
  insert_started-outcome again owner db = ground arith

  view-insert_started :
      (again : Bool) (owner : Option ℕ) (db : Db) (j : ℕ)
      → view (insert_started c again owner now db).1 j ≡ view db j
  unfolding insert_started view
  view-insert_started again owner db j = ground arith

  -- the row of the scan is there and may be acquired
  acquire_scan-refines :
      (again : Bool) (owner : Option ℕ) (db : Db) (r : ScanRow)
      → get db.scans c.scan_id ≡ some r
      → may_acquire c.tenant_id owner r ≡ true
      → ((acquire_scan c again owner now db).0
          ≡ started again owner (is_some (get db.attempts c.attempt_id)))
        × ((j : ℕ)
            → view (acquire_scan c again owner now db).1 j
              ≡ at_scan c.scan_id j (acquire c.attempt_id) (view db j))
  unfolding acquire_scan ready view_row
  acquire_scan-refines again owner db r there may =
      let kept = get-ready again owner db ∙ there in
      rw
        (update_scan-hit c.scan_id (may_acquire c.tenant_id owner) (owned_row c.attempt_id now)
          (ready again owner db) r kept may)
        (
          insert_started-outcome again owner _
              ∙ ap (started again owner) (attempts-ready again owner db),
          λ j.
              view-insert_started again owner _ j
              ∙ (view-put c.scan_id _ (acquire c.attempt_id) r (ready again owner db) j kept refl
                  ∙ ap (at_scan c.scan_id j (acquire c.attempt_id)) (view-ready again owner db j)),
        )

  view-skip_attempt : (db : Db) (j : ℕ) → view (skip_attempt c now db) j ≡ view db j
  unfolding skip_attempt
  view-skip_attempt db j = view-insert_attempt_quiet _ _ db j

  may_acquire_of :
      (r : ScanRow) (joined : Option AttemptRow)
      → (r.tenant_id == c.tenant_id) ≡ true
      → (is_pending r.status || is_redelivery c r joined) ≡ true
      → may_acquire c.tenant_id r.processing_attempt_id r ≡ true
  unfolding is_redelivery
  may_acquire_of r joined mine may = ground arith

  -- `begin_attempt` takes the scan exactly when the delivery may have it and the id of the attempt is
  -- new: then the scan is IN_PROGRESS and owned by the attempt. Otherwise no view changes.
  pub begin_attempt-refines :
      (db : Db)
      → let after = with_tenant_transaction healthy (begin_attempt c now) db in
        (is_acquired after.0 ≡ grants c db)
        × ((j : ℕ)
            → view after.1 j ≡ (
                if grants c db
                then at_scan c.scan_id j (acquire c.attempt_id) (view db j)
                else view db j))
  unfolding begin_attempt with_tenant_transaction grants select_scan
  begin_attempt-refines db = elim (Option-cases (get db.scans c.scan_id)) [
    | inl e ↦ (ground arith, λ j. ground arith)
    | inr (r, e) ↦ elim (Bool-cases (r.tenant_id == c.tenant_id)) [
      | inl mine ↦
          let joined = current_attempt db c.scan_id r in
          let again = is_redelivery c r joined in
          elim (Bool-cases (is_pending r.status || again)) [
            | inl may ↦
                let (out, views) =
                  acquire_scan-refines again r.processing_attempt_id db r e
                    (may_acquire_of r joined mine may) in
                (ground arith, λ j. ground (arith, views j))
            | inr refused ↦ (ground arith, λ j. ground (arith, view-skip_attempt db j))
          ]
      | inr other ↦ (ground arith, λ j. ground arith)
    ]
  ]

  -- A call that returns has acquired the scan exactly when the delivery may have it.
  pub begin_attempt-ok :
      (db : Db) (b : Begun)
      → (begin_attempt c now db).0 ≡ ok b
      → is_acquired (ok b) ≡ may_begin c db
  unfolding begin_attempt may_begin select_scan
  begin_attempt-ok db b h = elim (Option-cases (get db.scans c.scan_id)) [
    | inl e ↦ ground arith
    | inr (r, e) ↦ elim (Bool-cases (r.tenant_id == c.tenant_id)) [
      | inl mine ↦
          let joined = current_attempt db c.scan_id r in
          let again = is_redelivery c r joined in
          elim (Bool-cases (is_pending r.status || again)) [
            | inl may ↦ ground (
              arith,
              (acquire_scan-refines again r.processing_attempt_id db r e
                  (may_acquire_of r joined mine may)).0,
            )
            | inr refused ↦ ground arith
          ]
      | inr other ↦ ground arith
    ]
  ]

-- A PENDING scan is free for every delivery of its tenant.
pub may_begin-pending :
    (c : Claim) (db : Db) (v : View)
    → view db c.scan_id ≡ some v
    → (v.tenant_id == c.tenant_id) ≡ true
    → is_pending v.status ≡ true
    → may_begin c db ≡ true
unfolding may_begin view view_row
may_begin-pending c db v e t p = ground arith
