-- ===== src/Worker/Processor/Outcomes/Starts.antt =====
-- A delivery that acquires its scan over a healthy connection goes on to its work.
use bevoac_dev.Prelude.{ℕ, ◌≡◌, refl, ap, ◌∙◌, Bool, true, false, Option, [], arith}
use bevoac_dev.Prelude.Text.{Text}
use bevoac_dev.Database.{Db}
use bevoac_dev.Worker.Errors.{Outcome, ok, raised}
use bevoac_dev.Worker.Store.Transaction.{Connection, healthy, with_tenant_transaction}
use bevoac_dev.Worker.Store.Begin.{
  Claim, Begun, scan_not_found, not_acquired, acquired, begin_attempt,
}
use bevoac_dev.Worker.Store.Marks.{Owner}
use bevoac_dev.Worker.Lifecycle.{view, view_row, owns_scan, at_scan, acquire}
use bevoac_dev.Worker.Lifecycle.Begin.{is_acquired, may_begin, grants, begin_attempt-refines}
use bevoac_dev.Worker.Processor.Exec.{World, transact, set_acquired}
use bevoac_dev.Worker.Processor.Environment.{Body, Message, Config, Answers}
use bevoac_dev.Worker.Processor.Process.{claim_of, work, proceed, main_path}
use bevoac_dev.Worker.Processor.Outcomes.{bind-ok, mine}

module _ (uuid_text : ℕ → Text) (cfg : Config) (answers : Answers) (message : Message)
    (body : Body) where
  abbrev own : Owner
  own = mine uuid_text cfg answers message body

  abbrev pub claim : Claim
  claim = claim_of uuid_text cfg answers message body.scan_id body.tenant_id

  acquired-form :
      (x : Outcome Begun)
      → is_acquired x ≡ true
      → (reclaimed : Bool) × ((previous : Option ℕ) × (x ≡ ok (acquired reclaimed previous)))
  acquired-form (ok (acquired reclaimed previous)) h = (reclaimed, (previous, refl))
  acquired-form (ok scan_not_found) h = cc
  acquired-form (ok (not_acquired c)) h = cc
  acquired-form (raised e) h = cc

  may_begin-owns :
      (db : Db)
      → may_begin claim db ≡ true
      → owns_scan own
          (at_scan body.scan_id body.scan_id (acquire answers.attempt_id) (view db body.scan_id))
        ≡ true
  unfolding may_begin view view_row
  may_begin-owns db h = ground arith

  -- a world in which the delivery has the scan
  pub record Started (db : Db) (w : World) : Type 0 where
    pub acquires : w.acquired ≡ true
    pub unsettled : w.settled ≡ []
    pub owner_is : owns_scan own (view w.db body.scan_id) ≡ true
    pub views :
        (j : ℕ) → view w.db j ≡ at_scan body.scan_id j (acquire answers.attempt_id) (view db j)

  abbrev pub fresh_world : Db → World
  fresh_world db = record { db = db; settled = []; acquired = false }

  pub main_path-Started :
      (db : Db)
      → answers.at_begin.connection ≡ healthy
      → grants claim db ≡ true
      → (w : World) × (Started db w
          × (main_path uuid_text cfg answers message body (fresh_world db)
              ≡ work uuid_text cfg answers message body w))
  unfolding main_path proceed transact set_acquired grants
  main_path-Started db con h =
      let m = begin_attempt claim answers.at_begin.now in
      let x = with_tenant_transaction healthy m db in
      let (out, moved) = begin_attempt-refines claim answers.at_begin.now db in
      let (reclaimed, (previous, form)) = acquired-form x.0 (out ∙ h) in
      let views : (j : ℕ)
          → view x.1 j ≡ at_scan body.scan_id j (acquire answers.attempt_id) (view db j) =
        λ j. rw (moved j, h) refl in
      let may : may_begin claim db ≡ true = ground arith in
      let w : World = record { db = x.1; settled = []; acquired = true } in
      let first =
        ap (λ (c : Connection). transact c m (fresh_world db)) con
        ∙ ap (λ (r : Outcome Begun). (r, record (fresh_world db) { db = x.1 })) form in
      (
        w,
        (
          record {
            acquires = refl;
            unsettled = refl;
            owner_is = rw (views body.scan_id) (may_begin-owns db may);
            views = views;
          },
          bind-ok _ _ (fresh_world db) _ _ first ∙ bind-ok set_acquired _ _ w tt refl,
        ),
      )
