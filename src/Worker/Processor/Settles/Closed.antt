-- ===== src/Worker/Processor/Settles/Closed.antt =====
-- `markCompleted` and `markFailed`: where they return `true`, the scan is closed.
use bevoac_dev.Prelude.{
  ℕ, ◌≡◌, refl, sym, ◌∙◌, Bool, true, false, Option, none, some, if◌then◌else◌, arith,
}
use bevoac_dev.Database.{Db, AttemptStatus}
use bevoac_dev.Worker.Errors.{ok}
use bevoac_dev.Worker.Store.Transaction.{Connection, Tx}
use bevoac_dev.Worker.Store.Results.{ScanResult, ResultCodec, Limits}
use bevoac_dev.Worker.Store.Marks.{Owner, ErrorInfo, mark_completed, mark_failed}
use bevoac_dev.Worker.Lifecycle.{View, view, owns, owns_scan, at_scan, complete, fail}
use bevoac_dev.Worker.Lifecycle.Marks.{closes, mark_completed-refines, mark_failed-refines}
use bevoac_dev.Worker.Processor.Exec.{transact}
use bevoac_dev.Worker.Processor.Settles.{transaction-returns, released, Closing, Quiet-transact}

module _ (o : Owner) where
  released-at :
      (f : View → View) (v : Option View)
      → ((x : View) → owns o x ≡ true → released o.tenant_id true (some (f x)) ≡ true)
      → owns_scan o v ≡ true
      → released o.tenant_id true (at_scan o.scan_id o.scan_id f v) ≡ true
  released-at f none h own = ground arith
  released-at f (some x) h own = ground (arith, h x own)

  Closing-by :
      (con : Connection) (m : Tx Bool) (big : Bool) (f : View → View)
      → ((x : View) → owns o x ≡ true → released o.tenant_id true (some (f x)) ≡ true)
      → ((db : Db)
          → ((m db).0 ≡ closes (owns_scan o (view db o.scan_id)) big)
            × ((j : ℕ)
                → view (m db).1 j ≡ (if big then view db j else at_scan o.scan_id j f (view db j))))
      → Closing o.scan_id o.tenant_id (transact con m)
  unfolding transact
  Closing-by con m big f closing refines = record {
    quiet = Quiet-transact o.scan_id o.tenant_id con m;
    at = λ w h.
        let (returned, kept) = transaction-returns con m w.db true h in
        let (outcome, views) = refines w.db in
        let (small, own) =
          closes-true (owns_scan o (view w.db o.scan_id)) big (sym outcome ∙ returned) in
        let moved = released-at f (view w.db o.scan_id) closing own in
        rw (kept, views o.scan_id, small) moved;
  }
    where
      closes-true : (a b : Bool) → closes a b ≡ ok true → (b ≡ false) × (a ≡ true)
      closes-true true true h = cc
      closes-true true false h = (refl, refl)
      closes-true false b h = ground arith

  complete-released :
      (x : View) → owns o x ≡ true → released o.tenant_id true (some (complete o x)) ≡ true
  complete-released x h = rw h (ground arith)

  fail-released : (x : View) → owns o x ≡ true → released o.tenant_id true (some (fail o x)) ≡ true
  fail-released x h = rw h (ground arith)

  module _ (codec : ResultCodec) (limits : Limits) (con : Connection) (now : ℕ) where
    pub Closing-completed :
        (result : ScanResult)
        → Closing o.scan_id o.tenant_id (transact con (mark_completed codec limits o result now))
    Closing-completed result =
        Closing-by con _ _ (complete o) complete-released
          (mark_completed-refines codec limits o now result)

    pub Closing-failed :
        (info : ErrorInfo) (result : Option ScanResult) (status : AttemptStatus)
        → Closing o.scan_id o.tenant_id
            (transact con (mark_failed codec limits o info result status now))
    Closing-failed info result status =
        Closing-by con _ _ (fail o) fail-released
          (mark_failed-refines codec limits o now info result status)
