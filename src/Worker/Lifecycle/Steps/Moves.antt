-- ===== src/Worker/Lifecycle/Steps/Moves.antt =====
-- Each call of the store refines one step in the life of a scan.
use bevoac_dev.Prelude.{
  ℕ, ◌≡◌, refl, ap, ◌∙◌, inl, inr, Bool, true, false, Option, none, some, ◌==◌, if◌then◌else◌,
  arith, Bool-cases, ==_iff,
}
use bevoac_dev.Database.{Db, is_terminal}
use bevoac_dev.Worker.Errors.{Outcome, ok, raised}
use bevoac_dev.Worker.Store.Transaction.{
  Tx, Connection, healthy, with_tenant_transaction, reaches, transaction-tables, transaction-ok,
  transaction-raised,
}
use bevoac_dev.Worker.Store.Results.{ResultCodec, Limits}
use bevoac_dev.Worker.Store.Begin.{Claim, is_redelivery, begin_attempt}
use bevoac_dev.Worker.Lifecycle.{View, view, view_row, on_view, at_scan, owns, acquire}
use bevoac_dev.Worker.Lifecycle.Marks.{
  mark_completed-refines, mark_failed-refines, mark_retryable-refines,
  mark_resource_preflight-refines,
}
use bevoac_dev.Worker.Lifecycle.Begin.{grants, may_begin, begin_attempt-refines}
use bevoac_dev.Worker.Lifecycle.Reject.{opens, mark_rejected_message-refines}
use bevoac_dev.Worker.Lifecycle.Steps.{
  Call, begins, preflights, completes, retries, fails, rejects, call_tables, Move, takes, releases,
  succeeds, gives_up, refuses, Life, stays, moves,
}

-- An operation on one scan, under a guard, makes its move or none.
guarded-Life :
    (id j : ℕ) (guard : View → Bool) (f : View → View) (v : Option View)
    → ((a : View) → guard a ≡ true → Move a (f a))
    → Life v (at_scan id j (λ a. if guard a then f a else a) v)
guarded-Life id j guard f none move = stays (ground arith)
guarded-Life id j guard f (some v) move = elim (Bool-cases (id == j)) [
  | inr other ↦ rw other (stays refl)
  | inl here ↦ elim (Bool-cases (guard v)) [
    | inr refused ↦ rw (here, refused) (stays refl)
    | inl granted ↦ rw (here, granted) (moves v (f v) refl refl (move v granted))
  ]
]

either-Life : (b : Bool) (v w : Option View) → Life v w → Life v (if b then v else w)
either-Life true v w h = stays refl
either-Life false v w h = h

-- A transaction that is rolled back, or whose commit is lost, moves no scan further than its body.
module _ {A : Type 0} (m : Tx A) (db : Db) (j : ℕ) where
  Life-any_connection :
      (con : Connection)
      → Life (view db j) (view (with_tenant_transaction healthy m db).1 j)
      → Life (view db j) (view (with_tenant_transaction con m db).1 j)
  Life-any_connection con h =
      rw (transaction-tables con m db) (elim (Bool-cases (reaches con)) [
        | inl there ↦ rw there h
        | inr lost ↦ rw lost (stays refl)
      ])

  Life-transaction :
      (con : Connection)
      → Life (view db j) (view (m db).1 j)
      → Life (view db j) (view (with_tenant_transaction con m db).1 j)
  Life-transaction con h = Life-any_connection con (rolled (m db).0 refl)
    where
      rolled :
          (out : Outcome A)
          → (m db).0 ≡ out
          → Life (view db j) (view (with_tenant_transaction healthy m db).1 j)
      rolled (ok a) e = rw (transaction-ok m db e) h
      rolled (raised x) e = rw (transaction-raised m db e) (stays refl)

-- A scan that a delivery may take is not closed.
may_begin-open :
    (c : Claim) (db : Db) (v : View)
    → may_begin c db ≡ true
    → view db c.scan_id ≡ some v
    → is_terminal v.status ≡ false
unfolding may_begin view view_row is_redelivery
may_begin-open c db v h e = ground arith

acquire-on_view :
    (n : ℕ) (v : Option View)
    → ((a : View) → v ≡ some a → is_terminal a.status ≡ false)
    → Life v (on_view (acquire n) v)
acquire-on_view n none free = stays refl
acquire-on_view n (some a) free = moves a _ refl refl (takes n (free a refl) refl)

acquire-Life :
    (c : Claim) (db : Db) (j : ℕ)
    → may_begin c db ≡ true
    → Life (view db j) (at_scan c.scan_id j (acquire c.attempt_id) (view db j))
acquire-Life c db j h = elim (Bool-cases (c.scan_id == j)) [
  | inr other ↦ rw other (stays refl)
  | inl here ↦ rw here (
      acquire-on_view c.attempt_id (view db j)
        λ a e. may_begin-open c db a h (ap (view db) ((==_iff c.scan_id j).0 here) ∙ e))
]

grants-may_begin : (c : Claim) (db : Db) → grants c db ≡ true → may_begin c db ≡ true
unfolding grants
grants-may_begin c db h = ground arith

begin-Life :
    (c : Claim) (now : ℕ) (db : Db) (j : ℕ)
    → Life (view db j) (view (with_tenant_transaction healthy (begin_attempt c now) db).1 j)
begin-Life c now db j = rw ((begin_attempt-refines c now db).1 j) (elim (Bool-cases (grants c db)) [
  | inl granted ↦ rw granted (acquire-Life c db j (grants-may_begin c db granted))
  | inr refused ↦ rw refused (stays refl)
])

-- Every call of the store, by any worker over any connection, moves every scan at most one step along
-- its life.
pub call_tables-Life :
    (codec : ResultCodec) (limits : Limits) (con : Connection) (now : ℕ) (call : Call) (db : Db)
    (j : ℕ)
    → Life (view db j) (view (call_tables codec limits con now call db) j)
unfolding call_tables
call_tables-Life codec limits con now (begins c) db j =
    Life-any_connection (begin_attempt c now) db j con (begin-Life c now db j)
call_tables-Life codec limits con now (preflights o count limit) db j =
    Life-transaction _ db j con (stays ((mark_resource_preflight-refines o now count limit db).1 j))
call_tables-Life codec limits con now (completes o result) db j = Life-transaction _ db j con (
    rw ((mark_completed-refines codec limits o now result db).1 j) (
      either-Life _ _ _
        (guarded-Life o.scan_id j (owns o) _ (view db j) λ a h. succeeds (ground arith) refl)))
call_tables-Life codec limits con now (retries o info) db j = Life-transaction _ db j con (
    rw ((mark_retryable-refines o now info db).1 j)
      (guarded-Life o.scan_id j (owns o) _ (view db j) λ a h. releases (ground arith) refl))
call_tables-Life codec limits con now (fails o info result status) db j =
    Life-transaction _ db j con (
      rw ((mark_failed-refines codec limits o now info result status db).1 j) (
        either-Life _ _ _
          (guarded-Life o.scan_id j (owns o) _ (view db j) λ a h. gives_up (ground arith) refl)))
call_tables-Life codec limits con now (rejects c message code) db j =
    Life-any_connection _ db j con (
      rw ((mark_rejected_message-refines codec limits c message code now db).1 j) (
        either-Life _ _ _ (
          guarded-Life c.scan_id j (opens c.tenant_id) _ (view db j)
            λ a h. refuses (ground arith) refl)))
