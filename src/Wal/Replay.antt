-- ===== src/Wal/Replay.antt =====
-- The records of a log whose rows lie in the capacities of their tables can all be replayed.
use mathlib.Core.Option
use cross_db.Base.{
  if◌then◌else◌, ℕ, ◌%◌, ◌^◌, ◌<◌, ◌≤◌, ◌≡◌, refl, sym, ap, ◌∙◌, ◌==◌, ltb, leb, ◌&&◌, arith, some,
  List, [], ◌∷◌, subst, update, Bool-cases, inl, inr, if_both, lt→ltb, le→leb, ==→eq,
}
use cross_db.Store
use cross_db.Store.{Stg, Row, row_commit}
use cross_db.Index.{IdxOps, add_row}
use cross_db.Trans.{Table, with_ctrl, remove}
use cross_db.Wal.{Entry}
use cross_db.Wal.Bytes.{Mem}
use cross_db.Wal.Iterate.{WalRow}
use cross_db.Wal.Log.{AllSame}
use cross_db.Wal.Redo.{row_of, redo_at, redo_row, redo_rows}

-- The ids of the new rows are from 1 up to the capacities of their tables.
abbrev pub InTables : (ℕ → ℕ) → List Entry → Type 0
InTables caps [] = Unit
InTables caps (e ∷ es) =
    (e.row_id < 2 ^ 31 → (0 < e.row_id) × (e.row_id ≤ caps e.tbl_xoid)) × InTables caps es

remove-cap : {o : IdxOps} (t : Table o) (rid : ℕ) → (remove t rid).stg.cap ≡ t.stg.cap
unfolding remove Store.free
remove-cap t rid = if_both (λ (s : Stg). s.cap ≡ t.stg.cap) (t.stg.tail == 0) _ _ refl refl

redo_at-cap :
    {o : IdxOps} (row_size : ℕ) (t : Table o) (row_id : ℕ) (d : Mem)
    → (row_id < 2 ^ 31 → (0 < row_id) × (row_id ≤ t.stg.cap))
    → (t' : Table o) × (redo_at row_size t row_id d ≡ some t') × (t'.stg.cap ≡ t.stg.cap)
unfolding redo_at
redo_at-cap {o} row_size t row_id d fits = elim (Bool-cases (leb (2 ^ 31) row_id)) [
  | inl e ↦
      let rid = row_id % 2 ^ 31 in
      (
        (if ltb 0 rid && leb rid t.stg.maxid then remove t rid else t),
        rw e refl,
        if_both (λ (x : Table o). x.stg.cap ≡ t.stg.cap) (ltb 0 rid && leb rid t.stg.maxid) _ _
            (remove-cap t rid) refl,
      )
  | inr e ↦
      let (pos, small) = fits (ground (arith, e)) in
      let same : row_id % 2 ^ 31 ≡ row_id = ground (arith, e) in
      let row = with_ctrl row_commit (row_of row_size t.stg.ctl_off d) in
      (
        record t {
          stg = record t.stg { rows = update t.stg.rows row_id row };
          idx = (add_row o t.idx_order t.idx row_id row).1;
        },
        rw (e, same, lt→ltb 0 row_id pos, le→leb row_id t.stg.cap small) refl,
        refl,
      )
]

caps-update :
    {o : IdxOps} (caps : ℕ → ℕ) (ts : ℕ → Table o) (x : ℕ) (t : Table o)
    → ((y : ℕ) → (ts y).stg.cap ≡ caps y)
    → t.stg.cap ≡ caps x
    → (y : ℕ) → (update ts x t y).stg.cap ≡ caps y
caps-update caps ts x t h e y = elim (Bool-cases (y == x)) [
  | inl i ↦ rw i (e ∙ ap caps (sym (==→eq y x i)))
  | inr i ↦ rw i (h y)
]

pub redo_rows-cap :
    {o : IdxOps} (row_size caps : ℕ → ℕ) (ts : ℕ → Table o) (es : List Entry) (xs : List WalRow)
    → AllSame es xs
    → ((y : ℕ) → (ts y).stg.cap ≡ caps y)
    → InTables caps es
    → (ts' : ℕ → Table o) × (redo_rows row_size ts xs ≡ some ts')
      × ((y : ℕ) → (ts' y).stg.cap ≡ caps y)
unfolding redo_rows redo_row Option.bind
redo_rows-cap row_size caps ts [] [] same h fits = (ts, refl, h)
redo_rows-cap row_size caps ts (e ∷ es) (r ∷ rs) (s, same) h fits =
    let x = r.tbl_xoid in
    let (t, eq, cap) = redo_at-cap (row_size x) (ts x) r.row_id r.row_data (
      subst (λ i. i < 2 ^ 31 → (0 < i) × (i ≤ (ts x).stg.cap)) (sym s.same_id)
        (subst (λ c. e.row_id < 2 ^ 31 → (0 < e.row_id) × (e.row_id ≤ c))
          (ap caps (sym s.same_tbl) ∙ sym (h x)) fits.0)) in
    let (ts', eq', caps') =
      redo_rows-cap row_size caps (update ts x t) es rs same (caps-update caps ts x t h (cap ∙ h x))
        fits.1 in
    (ts', rw eq eq', caps')
redo_rows-cap row_size caps ts [] (r ∷ rs) same h fits = absurd same
redo_rows-cap row_size caps ts (e ∷ es) [] same h fits = absurd same
