-- ===== src/Trans.antt =====
-- core/xdb_trans.c and xdb_trans.h, and the insertion and deletion of rows in core/xdb_crud.c: a
-- connection marks the rows that it inserts (`XDB_ROW_TRANS`) and lists the new and the deleted rows of
-- each table in two bitmaps; a commit or a rollback works the lists off. Tables here have no
-- variable-length fields, triggers or subscriptions. A result `none` is a read through NULL.
pub mod Seen
pub mod Commit
pub mod Change
pub mod Delete
pub mod Undo
pub mod Rows
pub mod Tests
use mathlib.Core.Option
use cross_db.Base.{
  ℕ, ◌+◌, ◌*◌, ◌/◌, ◌%◌, Bool, true, false, not, ◌==◌, ltb, ◌&&◌, ◌||◌, if◌then◌else◌, Option, none,
  some, List, [], ◌∷◌, update,
}
use cross_db.Bmp.Leaf
use cross_db.Bmp.Leaf.{Leaf}
use cross_db.Bmp.Root
use cross_db.Bmp.Root.{Bmp, Node, Ret, ok, e_memory}
use cross_db.Store
use cross_db.Store.{Stg, Row, Memory, row_commit, row_trans}
use cross_db.Index.{IdxOps, add_row, rem_row}

-- `xdb_tblm_t`: the rows, the indexes in the order of `idx_order`, the time stamp in a row (in its first
-- bytes and its rest) where the table has a TTL field, and `cur_ts`.
pub record Table (o : IdxOps) : Type 0 where
  pub stg : Stg
  pub idx_order : List ℕ
  pub idx : ℕ → o.Idx
  pub in_memory : Bool
  pub ttl : Option (ℕ → ℕ → ℕ)
  pub cur_ts : ℕ

-- `xdb_tblTrans_t`
pub record TblTrans : Type 0 where
  pub new_rows : Bmp
  pub del_rows : Bmp

-- `xdb_dbTrans_t`, by the ids of the tables.
pub record DbTrans : Type 0 where
  pub tbl_wrlocks : Leaf
  pub tbl_rdlocks : Leaf
  pub tbl_rows : Leaf
  pub tbl_trans : ℕ → Option TblTrans

-- What malloc returns to `xdb_trans_addrow` and to the `xdb_bmp_set` that it calls.
pub record AddMemory : Type 0 where
  pub tbl : Option TblTrans
  pub node : Option Node
  pub leaf : Option Leaf

-- `ctrl & XDB_ROW_MASK`
abbrev pub ctrl_of : Row → ℕ
ctrl_of row = row.ctrl % 4

-- `ctrl &= ~XDB_ROW_MASK; ctrl |= c`
abbrev pub with_ctrl : ℕ → Row → Row
with_ctrl c row = record row { ctrl = row.ctrl / 4 * 4 + c }

-- `xdb_trans_getrow`
unfoldable pub getrow : Option DbTrans → ℕ → ℕ → Bool → Option Bool
getrow none tid rid b_new = some false
getrow (some d) tid rid b_new = elim (d.tbl_trans tid) [
  | none ↦ some false
  | some w ↦ Root.get (if b_new then w.new_rows else w.del_rows) rid
]

abbrev pub alive : Option (ℕ → ℕ → ℕ) → ℕ → Row → Bool
alive none now row = true
alive (some stamp) now row = ltb now (stamp row.next row.payload)

-- `xdb_row_valid`: does the connection with the transaction `d` see the row?
unfoldable pub row_valid : {o : IdxOps} → Table o → Option DbTrans → ℕ → ℕ → Option Bool
row_valid t d tid rid =
    let row = t.stg.rows rid in
    if ltb (ctrl_of row) row_commit
    then some false
    else Option.map (λ v. if v then alive t.ttl t.cur_ts row else false)
        (if ctrl_of row == row_commit
          then Option.map not (getrow d tid rid false)
          else getrow d tid rid true)

-- `xdb_tbltrans_init`
unfoldable pub init_tbl : TblTrans → TblTrans
init_tbl w = record { new_rows = Root.init w.new_rows; del_rows = Root.init w.del_rows }

-- `xdb_dbtrans_init`
unfoldable pub init_db : DbTrans → DbTrans
init_db d = record d {
  tbl_wrlocks = Leaf.init d.tbl_wrlocks;
  tbl_rdlocks = Leaf.init d.tbl_rdlocks;
  tbl_rows = Leaf.init d.tbl_rows;
}

-- `xdb_bmp_set` of `xdb_trans_addrow`, whose result is not looked at.
pub add_to : TblTrans → AddMemory → ℕ → Bool → Option TblTrans
add_to w m rid true =
    Option.map (λ r. record w { new_rows = r.0 }) (Root.set w.new_rows rid m.node m.leaf)
add_to w m rid false =
    Option.map (λ r. record w { del_rows = r.0 }) (Root.set w.del_rows rid m.node m.leaf)

-- The table's lists: those that are there, or new ones.
abbrev pub tbl_of : Option TblTrans → Option TblTrans → Option TblTrans
tbl_of (some w) mem = some w
tbl_of none mem = Option.map init_tbl mem

-- `xdb_trans_addrow`
unfoldable pub addrow : DbTrans → ℕ → AddMemory → ℕ → Bool → Option (DbTrans × Ret)
unfolding add_to
addrow d tid m rid b_new = elim (tbl_of (d.tbl_trans tid) m.tbl) [
  | none ↦ some (d, e_memory)
  | some w ↦
      Option.map
        (λ w'. (
          record d {
            tbl_rows = Leaf.set d.tbl_rows tid;
            tbl_trans = update d.tbl_trans tid (some w');
          },
          ok,
        ))
        (add_to w m rid b_new)
]

-- `xdb_trans_delrow`
unfoldable pub delrow : DbTrans → ℕ → ℕ → Option DbTrans
unfolding Option.bind
delrow d tid rid = Option.bind (d.tbl_trans tid) λ w.
    Option.map
      (λ b. record d { tbl_trans = update d.tbl_trans tid (some (record w { new_rows = b })) })
      (Root.clr w.new_rows rid)

abbrev put_row : Stg → ℕ → Row → Stg
put_row s rid row = record s { rows = update s.rows rid row }

-- The row as `xdb_row_insert` copies it into its block: a table in memory takes it as committed when
-- the connection commits each statement by itself.
abbrev pub new_row : Bool → Row → Row
new_row true row = record row { ctrl = 2 + row.ctrl % 2 }
new_row false row = with_ctrl row_trans row

abbrev pub is_fast : {o : IdxOps} → Table o → Bool → Bool
is_fast t auto = t.in_memory && auto

-- `xdb_row_insert` from the copy into the block `rid` on; -1 is `none`.
pub insert_at :
    {o : IdxOps}
    → Table o
    → DbTrans
    → ℕ
    → Bool
    → Row
    → AddMemory
    → ℕ
    → Option (Option ℕ × Table o × DbTrans)
insert_at {o} t d tid auto row m rid =
    let stored = new_row (is_fast t auto) row in
    let s = put_row t.stg rid stored in
    let (taken, idx) = add_row o t.idx_order t.idx rid stored in
    if not taken
    then some (none, record t { stg = Store.free s rid; idx = idx }, d)
    else if is_fast t auto
    then some (some rid, record t { stg = s; idx = idx }, d)
    else Option.map (λ r. (some rid, record t { stg = s; idx = idx }, r.0))
        (addrow d tid m rid true)

-- `xdb_row_insert`
unfoldable pub insert :
    {o : IdxOps}
    → Table o
    → DbTrans
    → ℕ
    → Bool
    → Row
    → Memory
    → AddMemory
    → Option (Option ℕ × Table o × DbTrans)
unfolding insert_at
insert t d tid auto row mem m =
    let (r, s) = Store.alloc t.stg mem in
    elim r [
      | none ↦ some (none, record t { stg = s }, d)
      | some rid ↦ insert_at (record t { stg = s }) d tid auto row m rid
    ]

-- `xdb_idx_remRow` and `__xdb_row_delete`; also `xdb_trans_delrow_commit`.
unfoldable pub remove : {o : IdxOps} → Table o → ℕ → Table o
remove {o} t rid = record t {
  stg = Store.free t.stg rid;
  idx = rem_row o t.idx_order t.idx rid (t.stg.rows rid);
}

-- `xdb_row_delete`
unfoldable pub delete :
    {o : IdxOps} → Table o → DbTrans → ℕ → Bool → AddMemory → ℕ → Option (Table o × DbTrans)
unfolding remove
delete t d tid auto m rid =
    let ctrl = ctrl_of (t.stg.rows rid) in
    if is_fast t auto || ctrl == row_trans
    then Option.map (λ d'. (remove t rid, d'))
        (if ctrl == row_trans then delrow d tid rid else some d)
    else Option.map (λ r. (t, r.0)) (addrow d tid m rid false)

-- `xdb_trans_newrow_commit`
unfoldable pub newrow_commit : {o : IdxOps} → Table o → ℕ → Table o
newrow_commit t rid = record t { stg = put_row t.stg rid (with_ctrl row_commit (t.stg.rows rid)) }

-- A callback with a state, called for each of the ids.
unfoldable pub each {ℓ} : {A : Type ℓ} → (A → ℕ → A) → A → List ℕ → A
each f a [] = a
each f a (x ∷ xs) = each f (f a x) xs

-- `xdb_trans_tbl_commit`
unfoldable pub tbl_commit : {o : IdxOps} → Table o → TblTrans → Option (Table o × TblTrans)
unfolding Option.bind
tbl_commit t w = Option.bind (Root.iterate w.new_rows) λ news.
    Option.map (λ dels. (each remove (each newrow_commit t news) dels, init_tbl w))
      (Root.iterate w.del_rows)

-- `xdb_trans_tbl_rollback`
unfoldable pub tbl_rollback : {o : IdxOps} → Table o → TblTrans → Option (Table o × TblTrans)
tbl_rollback t w = Option.map (λ news. (each remove t news, init_tbl w)) (Root.iterate w.new_rows)
