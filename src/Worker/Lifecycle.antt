-- ===== src/Worker/Lifecycle.antt =====
-- The life of a scan as an abstract state: who owns it, whether it is closed, and how often it was
-- reserved, charged and refunded. Each transaction of scan-store.js is an operation on these views;
-- the modules below prove that the tables refine them.
pub mod Primitives
pub mod Marks
pub mod Begin
pub mod Reject
pub mod Steps
use bevoac_dev.Prelude.{
  ℕ, ◌+◌, Bool, true, false, ◌&&◌, Option, none, some, List, [], ◌∷◌, ◌==◌, holds, if◌then◌else◌,
}
use bevoac_dev.Prelude.Table.{get}
use bevoac_dev.Database.{
  Db, ScanStatus, ScanRow, BillingState, consumed, refunded, LedgerEntry, EventType, scan_reserved,
  scan_consumed, scan_refunded, event_eq, is_event, is_pending, is_in_progress,
}
use bevoac_dev.Worker.Store.Marks.{Owner}

-- how many ledger entries of a kind a scan has
unfoldable pub count_events : ℕ → ℕ → EventType → List LedgerEntry → ℕ
count_events scan_id tenant_id event [] = 0
count_events scan_id tenant_id event (e ∷ rest) =
    (if is_event scan_id tenant_id event e then 1 else 0)
    + count_events scan_id tenant_id event rest

pub record View : Type 0 where
  pub tenant_id : ℕ
  pub status : ScanStatus
  pub owner : Option ℕ
  pub billing : BillingState
  pub reservations : ℕ
  pub consumptions : ℕ
  pub refunds : ℕ

unfoldable pub view_row : List LedgerEntry → ℕ → ScanRow → View
view_row ledger id r = record {
  tenant_id = r.tenant_id;
  status = r.status;
  owner = r.processing_attempt_id;
  billing = r.billing_state;
  reservations = count_events id r.tenant_id scan_reserved ledger;
  consumptions = count_events id r.tenant_id scan_consumed ledger;
  refunds = count_events id r.tenant_id scan_refunded ledger;
}

-- what the tables say of one scan
unfoldable pub view : Db → ℕ → Option View
unfolding view_row
view db id = elim (get db.scans id) [ none ↦ none | some r ↦ some (view_row db.ledger id r) ]

abbrev pub on_view : (View → View) → Option View → Option View
on_view f none = none
on_view f (some v) = some (f v)

-- an operation on one scan leaves the others alone
abbrev pub at_scan : ℕ → ℕ → (View → View) → Option View → Option View
at_scan id j f v = if id == j then on_view f v else v

abbrev pub owns : Owner → View → Bool
owns o v = v.tenant_id == o.tenant_id && holds v.owner o.attempt_id && is_in_progress v.status

abbrev pub owns_scan : Owner → Option View → Bool
owns_scan o none = false
owns_scan o (some v) = owns o v

-- one closing entry, if the scan has a reservation and no such entry yet
abbrev pub charged : ℕ → ℕ → ℕ
charged reservations n = if reservations == 0 then n else if n == 0 then 1 else n

-- a billing transition: the state, and a closing entry of its kind
abbrev pub bill : BillingState → EventType → View → View
bill target event v = record v {
  billing = target;
  consumptions =
      if event_eq event scan_consumed
      then charged v.reservations v.consumptions
      else v.consumptions;
  refunds = if event_eq event scan_refunded then charged v.reservations v.refunds else v.refunds;
}

-- DONE, charged
abbrev pub complete : Owner → View → View
complete o v =
    if owns o v then bill consumed scan_consumed (record v { status = ScanStatus.done }) else v

-- FAILED, refunded
abbrev pub fail : Owner → View → View
fail o v =
    if owns o v then bill refunded scan_refunded (record v { status = ScanStatus.failed }) else v

-- back to PENDING, with no owner
abbrev pub release : Owner → View → View
release o v = if owns o v then record v { status = ScanStatus.pending; owner = none } else v

-- FAILED and refunded, from PENDING only
abbrev pub reject : ℕ → View → View
reject tenant_id v =
    if v.tenant_id == tenant_id && is_pending v.status
    then bill refunded scan_refunded (record v { status = ScanStatus.failed; owner = none })
    else v

-- IN_PROGRESS, owned by a new attempt
abbrev pub acquire : ℕ → View → View
acquire attempt_id v = record v { status = ScanStatus.in_progress; owner = some attempt_id }
