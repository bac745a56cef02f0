-- ===== src/Worker/Store/Transaction.antt =====
-- lib/db-context.js: `withDatabaseTransaction` and `withTenantTransaction`. The body of a transaction
-- maps the tables to an outcome and new tables. Row locks (FOR UPDATE) make the transactions on one
-- scan run one after the other, so each is one step.
use bevoac_dev.Prelude.{◌≡◌, refl, Bool, true, false, Option, none, some, [], if◌then◌else◌, arith}
use bevoac_dev.Prelude.Text.{Text, text}
use bevoac_dev.Database.{Db}
use bevoac_dev.Worker.Errors.{Outcome, ok, raised, Thrown, js}

abbrev pub Tx {ℓ} : Type ℓ → Type ℓ
Tx A = Db → Outcome A × Db

-- How the connection treats a transaction. `before_commit`: a query or the COMMIT fails and the server
-- has rolled back; `after_commit`: the server has committed and the answer to COMMIT is lost.
pub data Connection : Type 0 where
  healthy : Connection
  before_commit after_commit : Thrown → Connection

-- COMMIT when the body returns; ROLLBACK, and the error again, when it throws.
unfoldable pub with_tenant_transaction {ℓ} : {A : Type ℓ} → Connection → Tx A → Tx A
with_tenant_transaction (before_commit e) body db = (raised e, db)
with_tenant_transaction healthy body db =
    let (r, db') = body db in elim r [ ok a ↦ (ok a, db') | raised e ↦ (raised e, db) ]
with_tenant_transaction (after_commit e) body db =
    let (r, db') = body db in elim r [ ok a ↦ (raised e, db') | raised x ↦ (raised x, db) ]

-- an error that the code itself throws: `new Error(message)`, with a code where one is set
abbrev pub plain_error : Option Text → Text → Thrown
plain_error code message = js (record {
  code = code;
  name = some (text "Error");
  statuses = [];
  message = message;
  partial_result = none;
})

module _ {ℓ} {A : Type ℓ} (m : Tx A) (db : Db) where
  -- A body that returns is committed, and one that throws leaves no trace.
  pub transaction-ok :
      {a : A} → (m db).0 ≡ ok a → with_tenant_transaction healthy m db ≡ (ok a, (m db).1)
  unfolding with_tenant_transaction
  transaction-ok h = rw (h, with_tenant_transaction)

  pub transaction-raised :
      {e : Thrown} → (m db).0 ≡ raised e → with_tenant_transaction healthy m db ≡ (raised e, db)
  unfolding with_tenant_transaction
  transaction-raised h = rw (h, with_tenant_transaction)

-- whether the server has committed what the body did
abbrev pub reaches : Connection → Bool
reaches (before_commit e) = false
reaches _ = true

-- Whatever the connection does, the tables are those before, or those of the healthy transaction.
pub transaction-tables {ℓ} :
    {A : Type ℓ} (con : Connection) (m : Tx A) (db : Db)
    → (with_tenant_transaction con m db).1
      ≡ (if reaches con then (with_tenant_transaction healthy m db).1 else db)
unfolding with_tenant_transaction
transaction-tables healthy m db = refl
transaction-tables (before_commit e) m db = refl
transaction-tables (after_commit e) m db = ground arith
