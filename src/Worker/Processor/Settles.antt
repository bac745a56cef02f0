-- ===== src/Worker/Processor/Settles.antt =====
-- When a message may leave the queue: the processing settles it at most once; what the scan must be
-- where it is completed or buried (released), and when it has to go back (Returned).
pub mod Closed
pub mod Once
pub mod Returned
use bevoac_dev.Prelude.{
  ℕ, ◌≡◌, ◌⊎◌, refl, sym, ap, ◌∙◌, Bool, true, false, not, ◌&&◌, ◌||◌, Option, none, some, List, [],
  ◌∷◌, ◌==◌, if◌then◌else◌, Bool-cases, Option-cases, inl, inr, arith,
}
use bevoac_dev.Prelude.Text.{Text}
use bevoac_dev.Database.{Db, AttemptStatus, is_terminal, is_pending}
use bevoac_dev.Worker.Errors.{Outcome, ok, raised, Thrown, WorkerFailure}
use bevoac_dev.Worker.Store.Transaction.{
  Connection, Tx, healthy, before_commit, after_commit, with_tenant_transaction, transaction-ok,
}
use bevoac_dev.Worker.Store.Results.{ScanResult}
use bevoac_dev.Worker.Store.Begin.{
  Claim, Begun, Current, scan_not_found, not_acquired, acquired, begin_attempt,
}
use bevoac_dev.Worker.Store.Marks.{
  Owner, ErrorInfo, mark_resource_preflight, mark_completed, mark_retryable, mark_failed,
}
use bevoac_dev.Worker.Lifecycle.{View, view, owns_scan}
use bevoac_dev.Worker.Lifecycle.Marks.{mark_completed-refines, mark_failed-refines}
use bevoac_dev.Worker.Lifecycle.Begin.{
  is_acquired, may_begin, grants, begin_attempt-refines, begin_attempt-ok, may_begin-pending,
}
use bevoac_dev.Worker.Processor.Exec.{
  World, Exec, Settlement, completed, abandoned, pure, throw, await, transact, try_catch, settle,
  set_acquired, ◌>>=◌, ◌>>◌,
}
use bevoac_dev.Worker.Processor.Environment.{
  Body, Content, valid, invalid, Message, Config, Answers,
}
use bevoac_dev.Worker.Processor.Process.{
  claim_of, owner, leave, refuse_resources, audit_and_complete, within_limit, check_resources, work,
  proceed, main_path, persist_and_settle, record_failure, recover, process_valid,
  process_scan_message,
}

-- A transaction that returns was committed over a healthy connection.
pub transaction-returns {ℓ} :
    {A : Type ℓ} (con : Connection) (m : Tx A) (db : Db) (a : A)
    → (with_tenant_transaction con m db).0 ≡ ok a
    → ((m db).0 ≡ ok a) × ((with_tenant_transaction con m db).1 ≡ (m db).1)
unfolding with_tenant_transaction
transaction-returns healthy m db a h = ground arith
transaction-returns (before_commit e) m db a h = cc
transaction-returns (after_commit e) m db a h = ground arith

-- What a completed message may leave behind: its scan is not PENDING, and it is closed if this delivery
-- had acquired it. (A scan of another tenant is none of its business.)
abbrev pub released : ℕ → Bool → Option View → Bool
released tenant taken none = true
released tenant taken (some v) =
    not (v.tenant_id == tenant)
    || (not (is_pending v.status) && (not taken || is_terminal v.status))

module _ (scan_id tenant_id : ℕ) where
  -- nothing settled, or abandoned, or the scan is released; one settlement at most
  abbrev pub SafeLeave : World → Type 0
  SafeLeave w =
      (w.settled ≡ [])
      ⊎ ((w.settled ≡ abandoned ∷ [])
          ⊎ ((s : Settlement) × (w.settled ≡ s ∷ [])
              × (released tenant_id w.acquired (view w.db scan_id) ≡ true)))

  abbrev pub is_raised : {A : Type 0} → Outcome A → Bool
  is_raised (ok a) = false
  is_raised (raised e) = true

  pub record Safe {A : Type 0} (m : Exec A) : Type 0 where
    pub at :
        (w : World)
        → w.settled ≡ []
        → SafeLeave (m w).1 × (is_raised (m w).0 ≡ true → (m w).1.settled ≡ [])

  pub record Quiet {A : Type 0} (m : Exec A) : Type 0 where
    pub at : (w : World) → (m w).1.settled ≡ w.settled

  -- `true` is returned only when the scan is closed
  pub record Closing (m : Exec Bool) : Type 0 where
    pub quiet : Quiet m
    pub at :
        (w : World) → (m w).0 ≡ ok true → released tenant_id true (view (m w).1.db scan_id) ≡ true

  module _ {A : Type 0} where
    pub Quiet-pure : (a : A) → Quiet (pure a)
    unfolding pure
    Quiet-pure a = record { at = λ w. refl }

    pub Quiet-throw : (e : Thrown) → Quiet (throw {A = A} e)
    unfolding throw
    Quiet-throw e = record { at = λ w. refl }

    pub Quiet-await : (r : Outcome A) → Quiet (await r)
    unfolding await
    Quiet-await r = record { at = λ w. refl }

    pub Quiet-transact : (con : Connection) (m : Tx A) → Quiet (transact con m)
    unfolding transact
    Quiet-transact con m = record { at = λ w. refl }

    pub Quiet-try_catch :
        (m : Exec A) (h : Thrown → Exec A)
        → Quiet m
        → ((e : Thrown) → Quiet (h e))
        → Quiet (try_catch m h)
    unfolding try_catch
    Quiet-try_catch m h qm qh = record { at = λ w. go w (m w) (qm.at w) }
      where
        go :
            (w : World) (x : Outcome A × World)
            → x.1.settled ≡ w.settled
            → (elim x.0 as (λ _. Outcome A × World) [
              | ok a ↦ (ok a, x.1)
              | raised e ↦ h e x.1
            ]).1.settled
              ≡ w.settled
        go w (ok a, w') p = p
        go w (raised e, w') p = (qh e).at w' ∙ p

    pub Safe-Quiet : (m : Exec A) → Quiet m → Safe m
    Safe-Quiet m q = record { at = λ w h. (inl (q.at w ∙ h), λ _. q.at w ∙ h) }

    pub Safe-if : (b : Bool) (m n : Exec A) → Safe m → Safe n → Safe (if b then m else n)
    Safe-if true m n hm hn = hm
    Safe-if false m n hm hn = hn

    pub Safe-try_catch :
        (m : Exec A) (h : Thrown → Exec A)
        → Safe m
        → ((e : Thrown) → Safe (h e))
        → Safe (try_catch m h)
    unfolding try_catch
    Safe-try_catch m h sm sh = record { at = λ w p. go (m w) (sm.at w p) }
      where
        go :
            (x : Outcome A × World)
            → SafeLeave x.1 × (is_raised x.0 ≡ true → x.1.settled ≡ [])
            → let y : Outcome A × World = elim x.0 [ ok a ↦ (ok a, x.1) | raised e ↦ h e x.1 ] in
              SafeLeave y.1 × (is_raised y.0 ≡ true → y.1.settled ≡ [])
        go (ok a, w') p = p
        go (raised e, w') p = (sh e).at w' (p.1 refl)

  pub Safe-bind :
      {A B : Type 0} (m : Exec A) (f : A → Exec B)
      → Quiet m
      → ((a : A) → Safe (f a))
      → Safe (m >>= f)
  unfolding ◌>>=◌
  Safe-bind {A} {B} m f qm sf = record { at = λ w p. go w p (m w) (qm.at w) }
    where
      go :
          (w : World)
          → w.settled ≡ []
          → (x : Outcome A × World) → x.1.settled ≡ w.settled
          → let y : Outcome B × World = elim x.0 [ ok a ↦ f a x.1 | raised e ↦ (raised e, x.1) ] in
            SafeLeave y.1 × (is_raised y.0 ≡ true → y.1.settled ≡ [])
      go w p (ok a, w') q = (sf a).at w' (q ∙ p)
      go w p (raised e, w') q = (inl (q ∙ p), λ _. q ∙ p)

  pub Safe-abandon : (fault : Option Thrown) → Safe (settle fault abandoned)
  unfolding settle
  Safe-abandon none = record { at = λ w p. (inr (inl (ap (λ l. abandoned ∷ l) p)), λ h. cc) }
  Safe-abandon (some e) = record { at = λ w p. (inl p, λ _. p) }

  -- A settlement behind the closing of the scan.
  pub Safe-close :
      (m : Exec Bool) (fault : Option Thrown) (s : Settlement)
      → Closing m
      → Safe (m >>= λ owned. if owned then settle fault s else pure tt)
  unfolding ◌>>=◌ settle pure
  Safe-close m fault s c = record { at = λ w p. go w p fault (m w) (c.quiet.at w) (c.at w) }
    where
      go :
          (w : World)
          → w.settled ≡ []
          → (f : Option Thrown) (x : Outcome Bool × World) → x.1.settled ≡ w.settled
          → (x.0 ≡ ok true → released tenant_id true (view x.1.db scan_id) ≡ true)
          → let y : Outcome (Unit {0}) × World = elim x.0 [
            | ok a ↦ (if a then settle f s else pure tt) x.1
            | raised e ↦ (raised e, x.1)
          ] in
            SafeLeave y.1 × (is_raised y.0 ≡ true → y.1.settled ≡ [])
      go w p f (raised e, w') q r = (inl (q ∙ p), λ _. q ∙ p)
      go w p f (ok false, w') q r = (inl (q ∙ p), λ _. q ∙ p)
      go w p (some e) (ok true, w') q r = (inl (q ∙ p), λ _. q ∙ p)
      go w p none (ok true, w') q r =
          (inr (inr (s, ap (λ l. s ∷ l) (q ∙ p), ground (arith, r refl))), λ h. cc)
