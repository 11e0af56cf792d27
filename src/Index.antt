-- ===== src/Index.antt =====
-- core/xdb_index.c: a row enters and leaves all the indexes of its table, in the order of `idx_order`.
-- What one index does (`idx_add`, `idx_rem` of `pIdxOps`) is an interface; the hash index and the
-- red-black tree are behind it.
pub mod Laws
mod Tests
use cross_db.Base.{ℕ, ◌+◌, zero, suc, Bool, true, false, Option, none, some, List, [], ◌∷◌, update}
use cross_db.Store.{Row}

-- `xdb_idx_ops`; `none` is an error code of `idx_add`, which leaves the index as it was.
pub record IdxOps : Type 1 where
  pub Idx : Type 0
  pub add : Idx → ℕ → Row → Option Idx
  pub rem : Idx → ℕ → Row → Idx

-- `xdb_idx_remRow`
unfoldable pub rem_row : (o : IdxOps) → List ℕ → (ℕ → o.Idx) → ℕ → Row → ℕ → o.Idx
rem_row o [] f rid row = f
rem_row o (k ∷ ks) f rid row = rem_row o ks (update f k (o.rem (f k) rid row)) rid row

-- The recovery loop, which runs `i` times on the index `x`.
unfoldable pub recover : (o : IdxOps) → ℕ → o.Idx → ℕ → Row → o.Idx
recover o zero x rid row = x
recover o (suc i) x rid row = recover o i (o.rem x rid row) rid row

-- `xdb_idx_addRow` from the index number `i` on: whether the row was taken, and the indexes. The
-- recovery loop of the source names the index that refused (`idx_order[i]`) each time.
unfoldable pub add_from : (o : IdxOps) → ℕ → List ℕ → (ℕ → o.Idx) → ℕ → Row → Bool × (ℕ → o.Idx)
add_from o i [] f rid row = (true, f)
add_from o i (k ∷ ks) f rid row = elim (o.add (f k) rid row) [
  | none ↦ (false, update f k (recover o i (f k) rid row))
  | some x ↦ add_from o (i + 1) ks (update f k x) rid row
]

-- `xdb_idx_addRow`
unfoldable pub add_row : (o : IdxOps) → List ℕ → (ℕ → o.Idx) → ℕ → Row → Bool × (ℕ → o.Idx)
add_row o order f rid row = add_from o 0 order f rid row
