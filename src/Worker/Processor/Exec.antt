-- ===== src/Worker/Processor/Exec.antt =====
-- Asynchronous code that writes to the tables, settles the message, and may throw. `acquired` is the
-- variable of that name in `processScanMessage`, which the `catch` block reads.
use bevoac_dev.Prelude.{Bool, true, Option, none, some, List, ◌∷◌}
use bevoac_dev.Prelude.Text.{Text}
use bevoac_dev.Database.{Db}
use bevoac_dev.Worker.Errors.{Outcome, ok, raised, Thrown}
use bevoac_dev.Worker.Store.Transaction.{Tx, Connection, with_tenant_transaction}

-- what the receiver did with the message
pub data Settlement : Type 0 where
  completed abandoned : Settlement
  dead_lettered : (reason description : Text) → Settlement

-- The settlements stand newest first.
pub record World : Type 0 where
  pub db : Db
  pub settled : List Settlement
  pub acquired : Bool

abbrev pub Exec {ℓ} : Type ℓ → Type ℓ
Exec A = World → Outcome A × World

module _ {ℓ} {A : Type ℓ} where
  unfoldable pub pure : A → Exec A
  pure a w = (ok a, w)

  unfoldable pub throw : Thrown → Exec A
  throw e w = (raised e, w)

  -- an awaited promise of the environment
  unfoldable pub await : Outcome A → Exec A
  await r w = (r, w)

  -- a call of scan-store.js
  unfoldable pub transact : Connection → Tx A → Exec A
  transact con m w = let (r, db) = with_tenant_transaction con m w.db in (r, record w { db = db })

  -- `try { m } catch (e) { h }`
  unfoldable pub try_catch : Exec A → (Thrown → Exec A) → Exec A
  try_catch m h w = let (r, w') = m w in elim r [ ok a ↦ (ok a, w') | raised e ↦ h e w' ]

infixl 10 ◌>>=◌ ◌>>◌
unfoldable pub ◌>>=◌ {ℓ κ} : {A : Type ℓ} {B : Type κ} → Exec A → (A → Exec B) → Exec B
◌>>=◌ m f w = let (r, w') = m w in elim r [ ok a ↦ f a w' | raised e ↦ (raised e, w') ]

abbrev pub ◌>>◌ {ℓ} : {B : Type ℓ} → Exec (Unit {0}) → Exec B → Exec B
m >> n = m >>= λ _. n

-- A call of the receiver: it settles the message, or throws.
unfoldable pub settle : Option Thrown → Settlement → Exec (Unit {0})
settle none s w = (ok tt, record w { settled = s ∷ w.settled })
settle (some e) s w = (raised e, w)

-- `acquired = true`
unfoldable pub set_acquired : Exec (Unit {0})
set_acquired w = (ok tt, record w { acquired = true })
