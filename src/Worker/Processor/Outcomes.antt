-- ===== src/Worker/Processor/Outcomes.antt =====
-- What becomes of a scan and of its message when the delivery that acquired the scan runs to its end.
pub mod Starts
pub mod Ends
use bevoac_dev.Prelude.{
  ℕ, ◌≡◌, refl, ap, sym, ◌∙◌, inl, inr, Bool, true, false, not, ◌&&◌, ◌||◌, Option, none, some,
  List, [], ◌∷◌, ◌==◌, if◌then◌else◌, arith, Bool-cases, eq_refl,
}
use bevoac_dev.Prelude.Text.{Text, text_eq}
use bevoac_dev.Database.{Db, ScanStatus, AttemptStatus}
use bevoac_dev.Worker.Errors.{
  Outcome, ok, raised, Thrown, WorkerFailure, PublicFailure, classify_worker_error,
  public_failure_payload, Report,
}
use bevoac_dev.Worker.Store.Transaction.{
  Connection, Tx, healthy, with_tenant_transaction, transaction-ok,
}
use bevoac_dev.Worker.Store.Results.{ScanResult}
use bevoac_dev.Worker.Store.Begin.{
  Claim, Begun, scan_not_found, not_acquired, acquired, begin_attempt,
}
use bevoac_dev.Worker.Store.Marks.{Owner, mark_completed, mark_retryable, mark_failed}
use bevoac_dev.Worker.Lifecycle.{
  View, view, view_row, owns, owns_scan, at_scan, acquire, complete, fail, release,
}
use bevoac_dev.Worker.Lifecycle.Begin.{is_acquired, may_begin, grants, begin_attempt-refines}
use bevoac_dev.Worker.Lifecycle.Marks.{
  too_big, too_big_opt, mark_completed-refines, mark_failed-refines, mark_retryable-refines,
}
use bevoac_dev.Worker.Processor.Exec.{
  World, Exec, Settlement, completed, abandoned, dead_lettered, pure, await, transact, try_catch,
  settle, set_acquired, ◌>>=◌,
}
use bevoac_dev.Worker.Processor.Environment.{Body, Message, Config, Answers, retry_exhausted}
use bevoac_dev.Worker.Processor.Process.{
  provider_code, claim_of, owner, info_of, audit_and_complete, work, proceed, main_path,
  persist_and_settle, record_failure, recover, process_valid, process_content, process_scan_message,
}

abbrev pub is_back : Settlement → Bool
is_back completed = false
is_back abandoned = true
is_back (dead_lettered reason description) = false

abbrev pub is_buried : Settlement → Bool
is_buried completed = false
is_buried abandoned = false
is_buried (dead_lettered reason description) = true

-- A transaction that returns, over a healthy connection.
pub transact-ok :
    {A : Type 0} (con : Connection) (m : Tx A) (w : World) (a : A)
    → con ≡ healthy
    → (m w.db).0 ≡ ok a
    → transact con m w ≡ (ok a, record w { db = (m w.db).1 })
unfolding transact
transact-ok {A} con m w a h o =
    ap (λ (x : Outcome A × Db). (x.0, record w { db = x.1 }))
      (ap (λ c. with_tenant_transaction c m w.db) h ∙ transaction-ok m w.db o)

-- What follows an action that returns.
pub bind-ok :
    {A : Type 0} (m : Exec A) (f : A → Exec (Unit {0})) (w w' : World) (a : A)
    → m w ≡ (ok a, w')
    → (m >>= f) w ≡ f a w'
unfolding ◌>>=◌
bind-ok {A} m f w w' a h =
    ap
      (λ (x : Outcome A × World). elim x.0 as (λ _. Outcome (Unit {0}) × World) [
        | ok b ↦ f b x.1
        | raised e ↦ (raised e, x.1)
      ])
      h

-- A transaction that returns `true`, and then a settlement that the receiver accepts.
pub commit_and_settle :
    (con : Connection) (m : Tx Bool) (fault : Option Thrown) (s : Settlement) (w : World)
    → con ≡ healthy
    → fault ≡ none
    → (m w.db).0 ≡ ok true
    → (transact con m >>= λ owned. if owned then settle fault s else pure tt) w
      ≡ (ok tt, record w { db = (m w.db).1; settled = s ∷ w.settled })
unfolding settle
commit_and_settle con m fault s w h n o =
    bind-ok _ _ w _ true (transact-ok con m w true h o) ∙ rw n refl

on_true {ℓ} :
    {A : Type ℓ} (P : A → Type 0) (b : Bool) (x y : A) → b ≡ true → P x → P (if b then x else y)
on_true P true x y h p = p
on_true P false x y h p = cc

-- the four ways of the `catch` block
by_way {ℓ} :
    {A : Type ℓ} (P : A → Type 0) (r x p : Bool) (retry exhausted disabled failed : A)
    → (r ≡ true → x ≡ false → P retry)
    → (r ≡ true → x ≡ true → P exhausted)
    → (r ≡ false → p ≡ true → P disabled)
    → (r ≡ false → p ≡ false → P failed)
    → P (if r && not x then retry else if r then exhausted else if p then disabled else failed)
by_way P true false p a b c d ha hb hc hd = ha refl refl
by_way P true true p a b c d ha hb hc hd = hb refl refl
by_way P false x true a b c d ha hb hc hd = hc refl refl
by_way P false x false a b c d ha hb hc hd = hd refl refl

module _ (uuid_text : ℕ → Text) (cfg : Config) (answers : Answers) (message : Message)
    (body : Body) where
  abbrev pub mine : Owner
  mine = owner uuid_text cfg answers message body

  -- what is stored for a failure
  abbrev pub failure_result : WorkerFailure → ScanResult
  failure_result f = record {
    report = f.cause_partial;
    preflight = none;
    error = some (public_failure_payload f (some answers.attempt_id));
  }

  -- the failure may pass, and deliveries are left
  abbrev pub again : WorkerFailure → Bool
  again f = f.retryable && not (retry_exhausted message.delivery_count cfg)

  -- no retry will follow, though one might help, or the provider is not enabled at all
  abbrev pub hopeless : WorkerFailure → Bool
  hopeless f =
      if f.retryable
      then retry_exhausted message.delivery_count cfg
      else text_eq f.code provider_code

  -- the scan and the message after a failure
  pub record Settled (f : WorkerFailure) (before : ℕ → Option View) (settlements : List Settlement)
      (y : Outcome (Unit {0}) × World) : Type 0 where
    pub returns : y.0 ≡ ok tt
    pub scan :
        (j : ℕ)
        → view y.1.db j
          ≡ at_scan body.scan_id j (if again f then release mine else fail mine) (before j)
    pub last : Settlement
    pub settles : y.1.settled ≡ last ∷ settlements
    pub back : is_back last ≡ again f
    pub buried : is_buried last ≡ (not (again f) && hopeless f)

  module _ (con : answers.at_recovery.connection ≡ healthy)
      (accepts : answers.receiver_recovery ≡ none) (f : WorkerFailure) (w : World)
      (owned : owns_scan mine (view w.db body.scan_id) ≡ true)
      (fits : too_big_opt cfg.codec cfg.limits (some (failure_result f)) ≡ false) where
    -- a committed transaction that moves the scan by `f`, and a settlement that is accepted
    Settled-by :
        (m : Tx Bool) (s : Settlement)
        → (m w.db).0 ≡ ok true
        → ((j : ℕ)
            → view (m w.db).1 j
              ≡ at_scan body.scan_id j (if again f then release mine else fail mine) (view w.db j))
        → is_back s ≡ again f
        → is_buried s ≡ (not (again f) && hopeless f)
        → Settled f (view w.db) w.settled (
            (transact answers.at_recovery.connection m >>= λ owned.
            if owned then settle answers.receiver_recovery s else pure tt)
              w)
    Settled-by m s out views b d =
        rw (commit_and_settle _ m _ s w con accepts out)
          (record { returns = refl; scan = views; last = s; settles = refl; back = b; buried = d })

    Settled-persist :
        (status : AttemptStatus) (s : Settlement)
        → again f ≡ false
        → is_back s ≡ false
        → is_buried s ≡ hopeless f
        → Settled f (view w.db) w.settled (
            persist_and_settle uuid_text cfg answers message body f status
              (settle answers.receiver_recovery s)
              w)
    unfolding persist_and_settle
    Settled-persist status s over b d =
        let (out, views) =
          mark_failed-refines cfg.codec cfg.limits mine answers.at_recovery.now
            (info_of uuid_text cfg answers message body
              (public_failure_payload f (some answers.attempt_id)))
            (some (failure_result f)) status w.db in
        Settled-by _ s (out ∙ rw (owned, fits) refl) (λ j. rw (over, views j, fits) refl)
          (b ∙ sym over) (d ∙ rw over refl)

    Settled-retry :
        again f ≡ true
        → Settled f (view w.db) w.settled (
            (transact answers.at_recovery.connection (
                  mark_retryable mine
                    (info_of uuid_text cfg answers message body
                      (public_failure_payload f (some answers.attempt_id)))
                    answers.at_recovery.now)
                >>= λ owned. if owned then settle answers.receiver_recovery abandoned else pure tt)
              w)
    Settled-retry h =
        let (out, views) =
          mark_retryable-refines mine answers.at_recovery.now
            (info_of uuid_text cfg answers message body
              (public_failure_payload f (some answers.attempt_id)))
            w.db in
        Settled-by _ abandoned (out ∙ ap ok owned) (λ j. rw h (views j)) (sym h) (rw h refl)

    Settled-record :
        Settled f (view w.db) w.settled (record_failure uuid_text cfg answers message body f w)
    unfolding record_failure
    Settled-record =
        by_way (λ (m : Exec (Unit {0})). Settled f (view w.db) w.settled (m w)) f.retryable
          (retry_exhausted message.delivery_count cfg) (text_eq f.code provider_code) _ _ _ _
          (λ r x. Settled-retry (rw (r, x) refl))
          (λ r x.
            Settled-persist AttemptStatus.dead_lettered _ (rw (r, x) refl) refl (rw (r, x) refl))
          (λ r x. Settled-persist AttemptStatus.dead_lettered _ (rw r refl) refl (rw (r, x) refl))
          (λ r x.
            Settled-persist AttemptStatus.attempt_failed completed (rw r refl) refl
              (rw (r, x) refl))

  pub Settled-recover :
      answers.at_recovery.connection ≡ healthy
      → answers.receiver_recovery ≡ none
      → (e : Thrown) (w : World) → w.acquired ≡ true
      → owns_scan mine (view w.db body.scan_id) ≡ true
      → too_big_opt cfg.codec cfg.limits (some (failure_result (classify_worker_error e))) ≡ false
      → Settled
          (classify_worker_error e)
          (view w.db)
          w.settled
          (recover uuid_text cfg answers message body e w)
  unfolding recover try_catch
  Settled-recover con accepts e w a owned fits =
      on_true
        (λ (m : Exec (Unit {0})). Settled (classify_worker_error e) (view w.db) w.settled (m w))
        w.acquired _ _ a (go _ (Settled-record con accepts (classify_worker_error e) w owned fits))
    where
      go :
          (y : Outcome (Unit {0}) × World)
          → Settled (classify_worker_error e) (view w.db) w.settled y
          → Settled
              (classify_worker_error e)
              (view w.db)
              w.settled
              (elim y.0 as (λ _. Outcome (Unit {0}) × World) [
                | ok u ↦ (ok u, y.1)
                | raised x ↦ settle answers.receiver_last abandoned y.1
              ])
      go (ok u, w') h = h
      go (raised x, w') h = let k = h.returns in cc
