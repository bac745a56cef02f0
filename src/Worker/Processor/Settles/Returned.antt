-- ===== src/Worker/Processor/Settles/Returned.antt =====
-- A message whose scan is in progress under that very message goes back to the queue.
use bevoac_dev.Prelude.{
  ℕ, ◌≡◌, ◌⊎◌, refl, ap, inl, inr, Bool, true, false, not, ◌&&◌, ◌||◌, Option, none, some, [], ◌∷◌,
  ◌==◌, is_some, arith, Option-cases, Bool-cases,
}
use bevoac_dev.Prelude.Text.{Text, truthy}
use bevoac_dev.Prelude.Table.{get}
use bevoac_dev.Database.{Db, is_in_progress, select_scan}
use bevoac_dev.Worker.Errors.{Outcome, ok, raised, Thrown}
use bevoac_dev.Worker.Store.Transaction.{Tx, with_tenant_transaction}
use bevoac_dev.Worker.Store.Begin.{
  Claim, Begun, Current, scan_not_found, not_acquired, acquired, same_text, current_attempt,
  begin_attempt,
}
use bevoac_dev.Worker.Lifecycle.Begin.{may_begin}
use bevoac_dev.Worker.Processor.Exec.{World, abandoned, transact, try_catch, settle, ◌>>=◌}
use bevoac_dev.Worker.Processor.Environment.{Body, Message, Config, Answers}
use bevoac_dev.Worker.Processor.Process.{
  claim_of, leave, proceed, main_path, recover, process_valid,
}
use bevoac_dev.Worker.Processor.Settles.{transaction-returns}

-- attempt `a` is one of the scan, made for the message with that id
abbrev carries : Db → (scan_id tenant_id : ℕ) → Option Text → Option ℕ → Bool
carries db scan_id tenant_id id none = false
carries db scan_id tenant_id id (some a) = elim (get db.attempts a) [
  | none ↦ false
  | some k ↦
      (k.scan_id == scan_id && k.tenant_id == tenant_id)
      && (truthy k.message_id && truthy id && same_text k.message_id id)
]

-- The scan is IN_PROGRESS, and its owner is an attempt that was made for the message with that id.
abbrev pub under_way : Db → (scan_id tenant_id : ℕ) → Option Text → Bool
under_way db scan_id tenant_id id = elim (get db.scans scan_id) [
  | none ↦ false
  | some r ↦
      (r.tenant_id == tenant_id && is_in_progress r.status)
      && carries db scan_id tenant_id id r.processing_attempt_id
]

-- what the processor reads of the row that it did not get
abbrev same_message : Option Text → Current → Bool
same_message id current =
    is_in_progress current.status
    && truthy current.message_id
    && truthy id
    && same_text current.message_id id

abbrev is_same : Option Text → Begun → Bool
is_same id (not_acquired current) = same_message id current
is_same id _ = false

-- The joined attempt of such a scan carries the id of the message.
begin_attempt-under_way :
    (c : Claim) (now : ℕ) (db : Db) (id : Option Text) (b : Begun)
    → (begin_attempt c now db).0 ≡ ok b
    → may_begin c db ≡ false
    → under_way db c.scan_id c.tenant_id id ≡ true
    → is_same id b ≡ true
unfolding begin_attempt may_begin select_scan current_attempt
begin_attempt-under_way c now db id b h may u = elim (Option-cases (get db.scans c.scan_id)) [
  | inl e ↦ ground arith
  | inr (r, e) ↦ elim (Option-cases r.processing_attempt_id) [
    | inl o ↦ ground arith
    | inr (a, o) ↦ elim (Option-cases (get db.attempts a)) [
      | inl x ↦ ground arith
      | inr (k, x) ↦ ground arith
    ]
  ]
]

module _ (uuid_text : ℕ → Text) (cfg : Config) (answers : Answers) (message : Message)
    (body : Body) where
  -- abandoned; or not settled, if the last call of the receiver throws
  abbrev pub Returned : World → Type 0
  Returned w =
      (w.settled ≡ abandoned ∷ []) ⊎ ((w.settled ≡ []) × (is_some answers.receiver_last ≡ true))

  abbrev claim : Claim
  claim = claim_of uuid_text cfg answers message body.scan_id body.tenant_id

  abbrev call : Tx Begun
  call = begin_attempt claim answers.at_begin.now

  -- a thrown error, or a settlement that did not throw
  abbrev Ends : Outcome (Unit {0}) × World → Type 0
  Ends (ok u, w) = w.settled ≡ abandoned ∷ []
  Ends (raised e, w) = (w.settled ≡ []) × (w.acquired ≡ false)

  Ends-abandon :
      (fault : Option Thrown) (w : World)
      → w.settled ≡ []
      → w.acquired ≡ false
      → Ends (settle fault abandoned w)
  unfolding settle
  Ends-abandon none w p a = ap (λ l. abandoned ∷ l) p
  Ends-abandon (some e) w p a = (p, a)

  Ends-proceed :
      (w : World) (b : Begun)
      → w.settled ≡ []
      → w.acquired ≡ false
      → is_same message.message_id b ≡ true
      → Ends (proceed uuid_text cfg answers message body b w)
  unfolding proceed leave
  Ends-proceed w scan_not_found p a same = cc
  Ends-proceed w (acquired again previous) p a same = cc
  Ends-proceed w (not_acquired c) p a same = rw same (Ends-abandon answers.receiver_main w p a)

  Ends-main :
      (w : World)
      → w.settled ≡ []
      → w.acquired ≡ false
      → may_begin claim w.db ≡ false
      → under_way w.db body.scan_id body.tenant_id message.message_id ≡ true
      → Ends (main_path uuid_text cfg answers message body w)
  unfolding main_path ◌>>=◌ transact
  Ends-main w p a may u =
      go (with_tenant_transaction answers.at_begin.connection call w.db)
        (transaction-returns answers.at_begin.connection call w.db)
    where
      go :
          (x : Outcome Begun × Db)
          → ((b : Begun) → x.0 ≡ ok b → ((call w.db).0 ≡ ok b) × (x.1 ≡ (call w.db).1))
          → Ends (elim x.0 as (λ _. Outcome (Unit {0}) × World) [
            | ok b ↦ proceed uuid_text cfg answers message body b (record w { db = x.1 })
            | raised e ↦ (raised e, record w { db = x.1 })
          ])
      go (raised e, d) h = (p, a)
      go (ok b, d) h =
          Ends-proceed (record w { db = d }) b p a
            (begin_attempt-under_way claim answers.at_begin.now w.db message.message_id b
              (h b refl).0 may u)

  Returned-recover :
      (e : Thrown) (w : World)
      → w.settled ≡ []
      → w.acquired ≡ false
      → Returned (recover uuid_text cfg answers message body e w).1
  unfolding recover settle
  Returned-recover e w p a = elim (Option-cases answers.receiver_last) [
    | inl n ↦ rw (a, n, p) (inl refl)
    | inr (x, s) ↦ rw (a, s) (inr (p, refl))
  ]

  Returned-valid :
      (w : World)
      → w.settled ≡ []
      → w.acquired ≡ false
      → may_begin claim w.db ≡ false
      → under_way w.db body.scan_id body.tenant_id message.message_id ≡ true
      → Returned (process_valid uuid_text cfg answers message body w).1
  unfolding process_valid try_catch
  Returned-valid w p a may u =
      go (main_path uuid_text cfg answers message body w) (Ends-main w p a may u)
    where
      go :
          (x : Outcome (Unit {0}) × World)
          → Ends x
          → Returned
              (elim x.0 as (λ _. Outcome (Unit {0}) × World) [
                | ok u ↦ (ok u, x.1)
                | raised e ↦ recover uuid_text cfg answers message body e x.1
              ]).1
      go (ok u, w') h = inl h
      go (raised e, w') h = Returned-recover e w' h.0 h.1

  -- The delivery may have the scan, or no earlier delivery of the same message is at work on it, or the
  -- message goes back.
  abbrev pub Yields : Db → World → Type 0
  Yields db w =
      ((may_begin claim db || not (under_way db body.scan_id body.tenant_id message.message_id))
        ≡ true)
      ⊎ Returned w

  pub Yields-valid :
      (w : World)
      → w.settled ≡ []
      → w.acquired ≡ false
      → Yields w.db (process_valid uuid_text cfg answers message body w).1
  Yields-valid w p a = elim (Bool-cases (may_begin claim w.db)) [
    | inl may ↦ inl (ground arith)
    | inr may ↦ elim (Bool-cases (under_way w.db body.scan_id body.tenant_id message.message_id)) [
      | inl u ↦ inr (Returned-valid w p a may u)
      | inr u ↦ inl (rw (may, u) refl)
    ]
  ]
