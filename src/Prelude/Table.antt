-- ===== src/Prelude/Table.antt =====
-- A database table by its primary key: rows in the order of insertion. Clients go by the laws.
use Prim.Native.Nat.{ℕ, ◌+◌}
use mathlib.Core.Path.{◌≡◌, refl}
use mathlib.Core.Option.{Option, none, some}
use mathlib.Core.List.{List, [], ◌∷◌}
use native.Mathlib.Omega.{arith}
use bevoac_dev.Prelude.Tests.{◌==◌, if◌then◌else◌}

abbrev pub Table {ℓ} : Type ℓ → Type ℓ
Table V = List (ℕ × V)

module _ {ℓ} {V : Type ℓ} where
  -- the row of a key
  unfoldable pub get : Table V → ℕ → Option V
  get [] k = none
  get ((j, v) ∷ t) k = if j == k then some v else get t k

  -- write the row of a key; a new key gets a new row
  unfoldable pub put : ℕ → V → Table V → Table V
  put k v [] = (k, v) ∷ []
  put k v ((j, w) ∷ t) = if j == k then (j, v) ∷ t else (j, w) ∷ put k v t

  pub get-put :
      (k j : ℕ) (v : V) (t : Table V) → get (put k v t) j ≡ (if k == j then some v else get t j)
  unfolding get put
  get-put k j v [] = refl
  get-put k j v ((i, w) ∷ t) = ground (arith, get-put k j v t)

  abbrev pub value_of : (V → ℕ) → Option V → ℕ
  value_of f none = 0
  value_of f (some v) = f v

  -- SUM of a column over the table
  unfoldable pub sum_by : (V → ℕ) → Table V → ℕ
  sum_by f [] = 0
  sum_by f ((j, v) ∷ t) = f v + sum_by f t

  pub sum_by-put :
      (f : V → ℕ) (k : ℕ) (v : V) (t : Table V)
      → sum_by f (put k v t) + value_of f (get t k) ≡ sum_by f t + f v
  unfolding sum_by put get
  sum_by-put f k v [] = omega arith
  sum_by-put f k v ((j, w) ∷ t) = ground (arith, sum_by-put f k v t)
