-- ===== src/Worker/Lifecycle/Steps/Accounts.antt =====
-- What holds of every scan after any history: its billing agrees with its status, and a closed scan
-- never changes again.
use bevoac_dev.Prelude.{ℕ, ◌≤◌, ◌≡◌, true, Option, none, some, List, [], ◌∷◌, arith}
use bevoac_dev.Database.{
  Db, ScanStatus, BillingState, reserved, consumed, refunded, is_terminal, event_eq,
}
use bevoac_dev.Worker.Store.Results.{ResultCodec, Limits}
use bevoac_dev.Worker.Lifecycle.{View, view}
use bevoac_dev.Worker.Lifecycle.Steps.{
  Event, call_tables, history, Move, takes, releases, succeeds, gives_up, refuses, Life, stays,
  moves,
}
use bevoac_dev.Worker.Lifecycle.Steps.Moves.{call_tables-Life}

abbrev pub billing_of : ScanStatus → BillingState
billing_of ScanStatus.done = consumed
billing_of ScanStatus.failed = refunded
billing_of _ = reserved

abbrev pub charges_of : ScanStatus → ℕ
charges_of ScanStatus.done = 1
charges_of _ = 0

abbrev pub refunds_of : ScanStatus → ℕ
refunds_of ScanStatus.failed = 1
refunds_of _ = 0

-- A scan that was reserved is charged once if it is DONE, refunded once if it FAILED, and neither
-- while it is open; it has no owner while it is PENDING.
pub record IsAccounted (v : View) : Type 0 where
  pub is_reserved : 1 ≤ v.reservations
  pub billing : v.billing ≡ billing_of v.status
  pub charges : v.consumptions ≡ charges_of v.status
  pub refunds : v.refunds ≡ refunds_of v.status
  pub unowned : v.status ≡ ScanStatus.pending → v.owner ≡ none

abbrev pub Accounted : Option View → Type 0
Accounted none = Unit
Accounted (some v) = IsAccounted v

Move-IsAccounted : {v w : View} → Move v w → IsAccounted v → IsAccounted w
unfolding event_eq
Move-IsAccounted (takes n open_scan e) h = ground arith
Move-IsAccounted (releases s e) h = ground arith
Move-IsAccounted (succeeds s e) h = ground arith
Move-IsAccounted (gives_up s e) h = ground arith
Move-IsAccounted (refuses s e) h = ground arith

Life-Accounted : (v w : Option View) → Life v w → Accounted v → Accounted w
Life-Accounted v w (stays e) h = rw e h
Life-Accounted v w (moves a b p q m) h = rw q (Move-IsAccounted m (rw p at h))

Life-closed :
    (v : View) (w : Option View) → is_terminal v.status ≡ true → Life (some v) w → w ≡ some v
Life-closed v w h (stays e) = e
Life-closed v w h (moves a b p q (takes n o e)) = ground arith
Life-closed v w h (moves a b p q (releases s e)) = ground arith
Life-closed v w h (moves a b p q (succeeds s e)) = ground arith
Life-closed v w h (moves a b p q (gives_up s e)) = ground arith
Life-closed v w h (moves a b p q (refuses s e)) = ground arith

module _ (codec : ResultCodec) (limits : Limits) where
  -- After any history of calls the accounts of a scan agree with its status, if they did before it.
  pub history-Accounted :
      (es : List Event) (db : Db) (j : ℕ)
      → Accounted (view db j)
      → Accounted (view (history codec limits es db) j)
  unfolding history
  history-Accounted [] db j h = h
  history-Accounted (e ∷ es) db j h =
      history-Accounted es (call_tables codec limits e.connection e.now e.call db) j
        (Life-Accounted _ _ (call_tables-Life codec limits e.connection e.now e.call db j) h)

  -- A scan that is DONE or FAILED keeps its status, owner and accounts, whatever calls come after.
  pub closed_absorbs :
      (es : List Event) (db : Db) (j : ℕ) (v : View)
      → view db j ≡ some v
      → is_terminal v.status ≡ true
      → view (history codec limits es db) j ≡ some v
  unfolding history
  closed_absorbs [] db j v h t = h
  closed_absorbs (e ∷ es) db j v h t =
      closed_absorbs es _ j v
        (Life-closed v _ t (rw h at (call_tables-Life codec limits e.connection e.now e.call db j)))
        t
