-- ===== src/Wal.antt =====
-- core/xdb_wal.c and xdb_wal.h: the write-ahead log. A commit is written behind the last one as a
-- header of 32 bytes and a record for each row, with the deleted rows of a table before the new ones; a
-- header of length 0 ends the log. `xdb_init_wal`, `xdb_wal_expand` and the
-- records of a transaction; the modules below have the commit, the replay and the two logs of a database.
-- `sizeof (xdb_wal_t)` is 184 with the first header at 152, `sizeof (xdb_walrow_t)` is 12.
-- A result `none` is a write outside of the mapping, a read through NULL, or a loop that did not end.
pub mod Bytes
pub mod Write
pub mod Iterate
pub mod Log
pub mod Rows
pub mod Append
pub mod Commit
pub mod Header
pub mod Db
pub mod Expand
pub mod Flush
pub mod Redo
pub mod Replay
pub mod Recover
pub mod Wrapped
pub mod Tests
use mathlib.Core.Option
use cross_db.Base.{
  ℕ, zero, suc, ◌+◌, ◌-◌, ◌*◌, ◌/◌, ◌%◌, ◌^◌, Bool, true, false, not, ◌==◌, ltb, leb, ◌&&◌, ◌||◌,
  if◌then◌else◌, Option, none, some, List, [], ◌∷◌, ◌++◌, length,
}
use cross_db.Bmp.Leaf
use cross_db.Bmp.Root
use cross_db.Trans.{TblTrans, DbTrans}
use cross_db.Wal.Bytes.{Mem, read, write, le, get32, get64}

-- `xdb_wal_t`: the fields behind `blk_hdr`, and all its bytes from `wal_commit` on.
pub record Wal : Type 0 where
  pub wal_size : ℕ
  pub sync_size : ℕ
  pub sync_cid : ℕ
  pub commit_id : ℕ
  pub commit_size : ℕ
  pub rollback_count : ℕ
  pub wal_active : Bool
  pub mem : Mem

-- `xdb_walm_t`, with the size that is mapped.
pub record Walm : Type 0 where
  pub wal : Wal
  pub wal_cap : ℕ
  pub mapped : ℕ

-- A write by the program.
unfoldable pub put : Walm → ℕ → List ℕ → Option Walm
put w o bs =
    if leb (o + length bs) w.mapped
    then some (record w { wal = record w.wal { mem = write w.wal.mem o bs } })
    else none

-- `xdb_init_wal` of a file of `fsize` bytes, 0 for a new one, whose capacity is `blk_cap`.
unfoldable pub init : Walm → ℕ → ℕ → Option Walm
init w fsize blk_cap =
    if ltb 0 fsize
    then (let cs = if ltb fsize w.wal.commit_size then fsize else w.wal.commit_size in
        some
          (record w { wal = record w.wal { wal_size = fsize; commit_size = cs; sync_size = cs } }))
    else put
        (record w {
          wal = record w.wal {
            wal_size = 184 + blk_cap * 4096;
            commit_size = 184;
            sync_size = 184;
          };
        })
        152 (le 8 0)

-- The loop of `xdb_wal_expand`, at most `n` times round: the new `wal_cap`. `wal_cap * 4096` is an `int`,
-- and `none` is also its overflow.
unfoldable pub doubled : ℕ → ℕ → ℕ → Option ℕ
doubled zero req cap = none
doubled (suc n) req cap = elim (ltb (cap * 2 * 4096) (2 ^ 31)) [
  | false ↦ none
  | true ↦ elim (ltb (184 + cap * 2 * 4096) req) [
    | true ↦ doubled n req (cap * 2)
    | false ↦ some (cap * 2)
  ]
]

-- What `store_remap` gives for a capacity: `none` for an error, else the bytes above the old end.
abbrev pub Remap : Type 0
Remap = ℕ → Option Mem

-- `xdb_stg_truncate` of the log; its error is not looked at.
pub truncate : Remap → ℕ → Walm → Walm
truncate remap cap w = elim (remap cap) [
  | none ↦ w
  | some fresh ↦ record w {
    mapped = (184 + 4096 * cap) % 2 ^ 32;
    wal = record w.wal { mem = λ j. if ltb j w.mapped then w.wal.mem j else fresh j };
  }
]

-- `xdb_wal_expand`: a capacity above 0 overflows before it is doubled 31 times.
unfoldable pub expand : Remap → Walm → ℕ → Option Walm
unfolding truncate
expand remap w size =
    let req = w.wal.commit_size + size + 32 in
    if ltb w.wal.wal_size req
    then Option.map
        (λ cap.
          let t = truncate remap cap w in
          record t { wal_cap = cap; wal = record t.wal { wal_size = 184 + cap * 4096 } })
        (doubled 31 req w.wal_cap)
    else some w

-- What the log reads of a table: its id, `row_size`, the bytes at a row's address, and what
-- `xdb_row_vdata_get` gives: the bytes behind the head of the row's variable-length data.
pub record LogTable : Type 0 where
  pub xoid : ℕ
  pub in_memory : Bool
  pub row_size : ℕ
  pub vfld_count : ℕ
  pub row : ℕ → Mem
  pub vdata : ℕ → Option (List ℕ)

-- `xdb_walrow_t` as it is written: `row_len`, `row_id`, `tbl_xoid`, and the bytes copied behind.
pub record Entry : Type 0 where
  pub row_len : ℕ
  pub row_id : ℕ
  pub tbl_xoid : ℕ
  pub copied : List ℕ

-- `XDB_ALIGN4`
abbrev pub align4 : ℕ → ℕ
align4 n = (n + 3) / 4 * 4

pub bytes_of : Option (List ℕ) → List ℕ
bytes_of none = []
bytes_of (some bs) = bs

-- The record of a row that `xdb_trans_newrow_wal` writes.
unfoldable pub new_entry : LogTable → ℕ → Entry
unfolding bytes_of
new_entry t rid =
    let vdat = bytes_of (t.vdata rid) in
    if t.vfld_count == 0
    then record {
      row_len = align4 (12 + t.row_size);
      row_id = rid;
      tbl_xoid = t.xoid;
      copied = read (t.row rid) 0 t.row_size;
    }
    else record {
      row_len = align4 (12 + t.row_size + 4 + length vdat);
      row_id = rid;
      tbl_xoid = t.xoid;
      copied = read (t.row rid) 0 (t.row_size + 4) ++ vdat;
    }

-- That of `xdb_trans_delrow_wal`: the id with `XDB_ROWID_MSB`.
unfoldable pub del_entry : LogTable → ℕ → Entry
del_entry t rid = record {
  row_len = 12;
  row_id = 2 ^ 31 + rid % 2 ^ 31;
  tbl_xoid = t.xoid;
  copied = [];
}

unfoldable pub entry_bytes : Entry → List ℕ
entry_bytes e = le 4 e.row_len ++ le 4 e.row_id ++ le 4 e.tbl_xoid ++ e.copied

-- `xdb_trans_newrow_wal` and `xdb_trans_delrow_wal`: room for the record, which is written behind
-- those of this commit so far, and `commit_len`.
unfoldable pub log_row : Remap → Walm × ℕ → Entry → Option (Walm × ℕ)
unfolding Option.bind
log_row remap (w, commit_len) e = Option.bind (expand remap w e.row_len) λ w'.
    Option.map (λ w''. (w'', commit_len + e.row_len))
      (put w' (w'.wal.commit_size + commit_len) (entry_bytes e))

-- A callback that can fail, called for each of the ids.
unfoldable pub try_all {ℓ κ} :
    {A : Type ℓ} {B : Type κ} → (A → B → Option A) → A → List B → Option A
unfolding Option.bind
try_all f a [] = some a
try_all f a (x ∷ xs) = Option.bind (f a x) λ a'. try_all f a' xs

-- `xdb_trans_tbl_wal`
unfoldable pub tbl_wal : Remap → LogTable → TblTrans → Walm × ℕ → Option (Walm × ℕ)
unfolding Option.bind
tbl_wal remap t tr st =
    if t.in_memory
    then some st
    else Option.bind (Root.iterate tr.del_rows) λ dels.
      Option.bind (try_all (λ s rid. log_row remap s (del_entry t rid)) st dels) λ st'.
        Option.bind (Root.iterate tr.new_rows)
          λ news. try_all (λ s rid. log_row remap s (new_entry t rid)) st' news

-- The tables of a transaction, which `xdb_trans_db_wal` iterates over.
unfoldable pub tbls_wal : Remap → (ℕ → LogTable) → DbTrans → Walm → Option (Walm × ℕ)
unfolding Option.bind
tbls_wal remap tables d w =
    try_all (λ st tid. Option.bind (d.tbl_trans tid) λ tr. tbl_wal remap (tables tid) tr st) (w, 0)
      (Leaf.iterate d.tbl_rows 0)
