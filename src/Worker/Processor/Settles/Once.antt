-- ===== src/Worker/Processor/Settles/Once.antt =====
-- The processing of a valid message settles it once, and not before its scan is released.
use bevoac_dev.Prelude.{
  ℕ, ◌≡◌, refl, sym, ap, ◌∙◌, true, false, Option, none, some, [], ◌∷◌, ◌==◌, Bool-cases, inl, inr,
  arith,
}
use bevoac_dev.Prelude.Text.{Text}
use bevoac_dev.Database.{Db, AttemptStatus, is_pending}
use bevoac_dev.Worker.Errors.{Outcome, ok, raised, Thrown, WorkerFailure}
use bevoac_dev.Worker.Store.Transaction.{Connection, transaction-ok}
use bevoac_dev.Worker.Store.Results.{ScanResult}
use bevoac_dev.Worker.Store.Begin.{
  Claim, Begun, scan_not_found, not_acquired, acquired, begin_attempt,
}
use bevoac_dev.Worker.Store.Marks.{Owner, ErrorInfo, mark_completed, mark_failed}
use bevoac_dev.Worker.Lifecycle.{View, view}
use bevoac_dev.Worker.Lifecycle.Begin.{
  is_acquired, may_begin, grants, begin_attempt-ok, begin_attempt-refines, may_begin-pending,
}
use bevoac_dev.Worker.Processor.Exec.{
  World, Exec, Settlement, transact, try_catch, settle, set_acquired, ◌>>=◌,
}
use bevoac_dev.Worker.Processor.Environment.{Body, Content, valid, Message, Config, Answers}
use bevoac_dev.Worker.Processor.Process.{
  claim_of, owner, leave, refuse_resources, audit_and_complete, within_limit, check_resources, work,
  proceed, main_path, persist_and_settle, record_failure, recover, process_valid, process_content,
  process_scan_message,
}
use bevoac_dev.Worker.Processor.Settles.{
  transaction-returns, released, SafeLeave, is_raised, Safe, Quiet, Closing, Quiet-pure,
  Quiet-throw, Quiet-await, Quiet-transact, Quiet-try_catch, Safe-Quiet, Safe-if, Safe-try_catch,
  Safe-bind, Safe-abandon, Safe-close,
}
use bevoac_dev.Worker.Processor.Settles.Returned.{Yields, Yields-valid}
use bevoac_dev.Worker.Processor.Settles.Closed.{Closing-completed, Closing-failed}

ruleset settle_rules = (
  Quiet-pure, Quiet-throw, Quiet-await, Quiet-transact, Quiet-try_catch, Safe-Quiet, Safe-if,
  Safe-bind, Safe-abandon, Safe-close,
)

module _ (uuid_text : ℕ → Text) (cfg : Config) (answers : Answers) (message : Message)
    (body : Body) where
  abbrev Fine : {A : Type 0} → Exec A → Type 0
  Fine m = Safe body.scan_id body.tenant_id m

  abbrev mine : Owner
  mine = owner uuid_text cfg answers message body

  Closing-done :
      (con : Connection) (result : ScanResult) (now : ℕ)
      → Closing body.scan_id body.tenant_id
          (transact con (mark_completed cfg.codec cfg.limits mine result now))
  Closing-done con result now = Closing-completed mine cfg.codec cfg.limits con now result

  Closing-fault :
      (con : Connection) (info : ErrorInfo) (result : Option ScanResult) (status : AttemptStatus)
      (now : ℕ)
      → Closing body.scan_id body.tenant_id
          (transact con (mark_failed cfg.codec cfg.limits mine info result status now))
  Closing-fault con info result status now =
      Closing-failed mine cfg.codec cfg.limits con now info result status

  -- what `Safe` says of one run
  abbrev Left : {A : Type 0} → Outcome A × World → Type 0
  Left y =
      SafeLeave body.scan_id body.tenant_id y.1
      × (is_raised body.scan_id body.tenant_id y.0 ≡ true → y.1.settled ≡ [])

  Safe-refuse :
      (count limit : ℕ) → Fine (refuse_resources uuid_text cfg answers message body count limit)
  unfolding refuse_resources
  Safe-refuse count limit = search (settle_rules, Closing-fault)

  Safe-audit :
      (p : Option (ℕ × Option ℕ)) → Fine (audit_and_complete uuid_text cfg answers message body p)
  unfolding audit_and_complete
  Safe-audit p =
      Safe-bind _ _ _ _ (Quiet-await _ _ _) (λ report. search (settle_rules, Closing-done))

  Safe-within_limit :
      (count : ℕ) (o : Option ℕ) → Fine (within_limit uuid_text cfg answers message body count o)
  unfolding within_limit
  Safe-within_limit count (some limit) = Safe-refuse count limit
  Safe-within_limit count none = Safe-audit _

  Safe-check : Fine (check_resources uuid_text cfg answers message body)
  unfolding check_resources
  Safe-check = search (settle_rules, Safe-within_limit)

  Safe-work : Fine (work uuid_text cfg answers message body)
  unfolding work
  Safe-work = Safe-bind _ _ _ _ (search settle_rules) (λ enabled.
      Safe-bind _ _ _ _ (search settle_rules)
        (λ credential. search (settle_rules, Safe-check, Safe-audit)))

  Safe-persist :
      (f : WorkerFailure) (status : AttemptStatus) (fault : Option Thrown) (s : Settlement)
      → Fine (persist_and_settle uuid_text cfg answers message body f status (settle fault s))
  unfolding persist_and_settle
  Safe-persist f status fault s = search (settle_rules, Closing-fault)

  Safe-record : (f : WorkerFailure) → Fine (record_failure uuid_text cfg answers message body f)
  unfolding record_failure
  Safe-record f = search (settle_rules, Safe-persist)

  -- the `catch` block settles a message that is not settled yet
  Safe-recover : (e : Thrown) → Fine (recover uuid_text cfg answers message body e)
  unfolding recover
  Safe-recover e = record {
    at = λ w.
        (Safe-if _ _ w.acquired _ _
            (Safe-try_catch _ _ _ _ (Safe-record _) (λ x. Safe-abandon _ _ _))
            (Safe-abandon _ _ answers.receiver_last)).at
          w;
  }

  begin : Exec Begun
  begin = transact answers.at_begin.connection (
      begin_attempt (claim_of uuid_text cfg answers message body.scan_id body.tenant_id)
        answers.at_begin.now)

  begin-committed :
      (w : World) (b : Begun)
      → (begin w).0 ≡ ok b
      → is_acquired (ok b) ≡ false
      → (may_begin (claim_of uuid_text cfg answers message body.scan_id body.tenant_id) w.db
          ≡ false)
        × (view (begin w).1.db body.scan_id ≡ view w.db body.scan_id)
  unfolding begin transact grants
  begin-committed w b h lost =
      let c = claim_of uuid_text cfg answers message body.scan_id body.tenant_id in
      let now = answers.at_begin.now in
      let (returned, kept) = transaction-returns answers.at_begin.connection _ w.db b h in
      let may = sym (begin_attempt-ok c now w.db b returned) ∙ lost in
      let (outcome, views) = begin_attempt-refines c now w.db in
      let same = transaction-ok (begin_attempt c now) w.db returned in
      (
        may,
        ap (λ d. view d body.scan_id) (kept ∙ sym (ap (λ x. x.1) same))
            ∙ rw (views body.scan_id, may) refl,
      )

  not_taken :
      (c : Claim) (db : Db) (v : Option View)
      → view db c.scan_id ≡ v
      → may_begin c db ≡ false
      → released c.tenant_id false v ≡ true
  not_taken c db none e h = refl
  not_taken c db (some v) e h = elim (Bool-cases (v.tenant_id == c.tenant_id)) [
    | inr p ↦ ground arith
    | inl t ↦ elim (Bool-cases (is_pending v.status)) [
      | inr p ↦ ground arith
      | inl p ↦ let q = may_begin-pending c db v e t p in ground arith
    ]
  ]

  settle-released :
      (w : World) (fault : Option Thrown) (s : Settlement)
      → w.settled ≡ []
      → released body.tenant_id w.acquired (view w.db body.scan_id) ≡ true
      → Left (settle fault s w)
  unfolding settle
  settle-released w none s p r = (inr (inr (s, ap (λ l. s ∷ l) p, r)), λ h. cc)
  settle-released w (some e) s p r = (inl p, λ _. p)

  Quiet-set_acquired : Quiet body.scan_id body.tenant_id set_acquired
  unfolding set_acquired
  Quiet-set_acquired = record { at = λ w. refl }

  Safe-proceed :
      (w : World) (b : Begun)
      → w.settled ≡ []
      → (is_acquired (ok b) ≡ false
          → released body.tenant_id w.acquired (view w.db body.scan_id) ≡ true)
      → Left (proceed uuid_text cfg answers message body b w)
  unfolding proceed leave
  Safe-proceed w scan_not_found p h = settle-released w _ _ p (h refl)
  Safe-proceed w (not_acquired c) p h = settle-released w _ _ p (h refl)
  Safe-proceed w (acquired again previous) p h =
      (Safe-bind _ _ _ _ Quiet-set_acquired (λ u. Safe-work)).at w p

  begin-quiet :
      (w : World) → ((begin w).1.settled ≡ w.settled) × ((begin w).1.acquired ≡ w.acquired)
  unfolding begin transact
  begin-quiet w = (refl, refl)

  Safe-main :
      (w : World)
      → w.settled ≡ []
      → w.acquired ≡ false
      → Left (main_path uuid_text cfg answers message body w)
  unfolding main_path ◌>>=◌ begin
  Safe-main w p a = go (begin w) (begin-quiet w) (begin-committed w)
    where
      go :
          (x : Outcome Begun × World)
          → (x.1.settled ≡ w.settled) × (x.1.acquired ≡ w.acquired)
          → ((b : Begun)
              → x.0 ≡ ok b
              → is_acquired (ok b) ≡ false
              → (may_begin (claim_of uuid_text cfg answers message body.scan_id body.tenant_id) w.db
                  ≡ false)
                × (view x.1.db body.scan_id ≡ view w.db body.scan_id))
          → Left (elim x.0 as (λ _. Outcome (Unit {0}) × World) [
            | ok b ↦ proceed uuid_text cfg answers message body b x.1
            | raised e ↦ (raised e, x.1)
          ])
      go (raised e, w') (q, t) h = (inl (q ∙ p), λ _. q ∙ p)
      go (ok b, w') (q, t) h = Safe-proceed w' b (q ∙ p) (λ lost.
          let (may, same) = h b refl lost in
          rw (t ∙ a, same)
            (not_taken (claim_of uuid_text cfg answers message body.scan_id body.tenant_id) w.db _
              refl may))

  Safe-valid :
      (w : World)
      → w.settled ≡ []
      → w.acquired ≡ false
      → Left (process_valid uuid_text cfg answers message body w)
  unfolding process_valid try_catch
  Safe-valid w p a = go (main_path uuid_text cfg answers message body w) (Safe-main w p a)
    where
      go :
          (x : Outcome (Unit {0}) × World)
          → Left x
          → Left (elim x.0 as (λ _. Outcome (Unit {0}) × World) [
            | ok u ↦ (ok u, x.1)
            | raised e ↦ recover uuid_text cfg answers message body e x.1
          ])
      go (ok u, w') h = h
      go (raised e, w') h = (Safe-recover e).at w' (h.1 refl)

  -- The processing of a message with a valid body settles it at most once, whatever the environment
  -- answers. If it completes it or buries it, then the scan is another tenant's or missing, or it is
  -- not PENDING and, where this delivery had acquired it, closed. And a delivery that may not have the
  -- scan, while an earlier delivery of the same message is at work on it (the scan is IN_PROGRESS and
  -- its owner is an attempt with the id of this message), abandons the message, or leaves it unsettled
  -- if the last call of the receiver throws.
  pub process-SafeLeave :
      message.content ≡ valid body
      → (db : Db)
      → let after = (process_scan_message uuid_text cfg answers message db).1 in
        SafeLeave body.scan_id body.tenant_id after
        × Yields uuid_text cfg answers message body db after
  unfolding process_scan_message process_content
  process-SafeLeave h db = by_content message.content h
    where
      by_content :
          (c : Content)
          → c ≡ valid body
          → let after =
              (process_content uuid_text cfg answers message c
                (record { db = db; settled = []; acquired = false })).1 in
            SafeLeave body.scan_id body.tenant_id after
            × Yields uuid_text cfg answers message body db after
      by_content c e =
          rw e (
            (Safe-valid _ refl refl).0,
            Yields-valid uuid_text cfg answers message body _ refl refl,
          )
