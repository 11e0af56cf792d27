-- ===== src/Store.antt =====
-- core/xdb_store.c: the block store that holds the rows of a table (and of its variable-length data).
-- Blocks are numbered from 1. A free block keeps the id of the next free one in its first four
-- bytes, from `blk_head` to `blk_tail`; a block never used lies above `blk_maxid`.
-- What `store_remap` returns (`none` for an error, else the memory above the old end as it was
-- found) is an argument. The file operations themselves are calls of the system.
pub mod Chain
pub mod Valid
pub mod Laws
pub mod Free
pub mod Sizes
mod Tests
use cross_db.Base.{
  ℕ, ◌+◌, ◌-◌, ◌*◌, ◌%◌, ◌^◌, Bool, true, false, not, ◌==◌, ltb, leb, ◌&&◌, if◌then◌else◌, Option,
  none, some, update,
}

-- A block: its first four bytes, its control byte, and the rest, which the store does not read.
pub record Row : Type 0 where
  pub next : ℕ
  pub ctrl : ℕ
  pub payload : ℕ

-- `XDB_ROW_FREE`, `XDB_ROW_DIRTY`, `XDB_ROW_COMMIT`, `XDB_ROW_TRANS`
abbrev pub row_free : ℕ
row_free = 0

abbrev pub row_dirty : ℕ
row_dirty = 1

abbrev pub row_commit : ℕ
row_commit = 2

abbrev pub row_trans : ℕ
row_trans = 3

-- `xdb_stghdr_t` with the blocks behind it, and the size that is mapped. `no_alloc` and `clear` are
-- the two bits of `blk_flags`.
pub record Stg : Type 0 where
  pub blk_size : ℕ
  pub blk_off : ℕ
  pub ctl_off : ℕ
  pub no_alloc : Bool
  pub clear : Bool
  pub head : ℕ
  pub tail : ℕ
  pub count : ℕ
  pub maxid : ℕ
  pub cap : ℕ
  pub rows : ℕ → Row
  pub mapped : ℕ

-- What `store_remap` and `store_map` give: the memory above the old end.
abbrev pub Memory : Type 0
Memory = Option (ℕ → Row)

abbrev pub zero_row : Row
zero_row = record { next = 0; ctrl = 0; payload = 0 }

-- `blk_off + blk_size * n`, in 32 bits as the operands are.
unfoldable pub size_of : Stg → ℕ → ℕ
size_of s n = (s.blk_off + s.blk_size * n) % 2 ^ 32

-- The blocks behind the remapping to a capacity of `n`: those that end inside of both mappings are kept.
-- When the new size wraps, it can be smaller than the old one, and the blocks behind it are lost.
abbrev pub grown : Stg → ℕ → (ℕ → Row) → ℕ → Row
grown s n fresh id =
    if leb id s.cap && leb (s.blk_off + s.blk_size * id) (size_of s n)
    then s.rows id
    else if s.clear && ltb (size_of s s.cap) (size_of s n)
    then zero_row
    else fresh id

-- `xdb_stg_truncate`; the new capacity is an `int`, here its 32 bits.
unfoldable pub truncate : Stg → ℕ → Memory → Option Stg
truncate s n none = none
truncate s n (some fresh) =
    some (record s { cap = n; rows = grown s n fresh; mapped = size_of s n })

-- `xdb_stg_expand`: the error of `xdb_stg_truncate` is `none`.
unfoldable pub expand : Stg → Memory → Option Stg
unfolding truncate
expand s mem =
    if s.head == 0
    then (if s.maxid == s.cap then truncate s (s.cap * 2 % 2 ^ 32) mem else some s)
    else some s

-- The last lines of `xdb_stg_alloc`: the row is marked and counted.
abbrev pub mark : ℕ → ℕ → Row → Row
mark off c r = if ltb 0 off then record r { ctrl = c } else r

pub taken : Stg → ℕ → Stg
taken s rid = record s {
  rows = update s.rows rid (mark s.ctl_off row_dirty (s.rows rid));
  count = s.count + 1;
}

-- `xdb_stg_alloc` with no free block.
pub alloc_new : Option Stg → Option ℕ × Stg → Option ℕ × Stg
unfolding taken
alloc_new none failed = failed
alloc_new (some s) failed =
    (some (s.maxid + 1), taken (record s { maxid = s.maxid + 1 }) (s.maxid + 1))

-- `xdb_stg_alloc`; -1 is `none`.
unfoldable pub alloc : Stg → Memory → Option ℕ × Stg
unfolding alloc_new taken truncate
alloc s mem =
    if s.no_alloc
    then (none, s)
    else if s.head == 0
    then alloc_new (if s.maxid == s.cap then truncate s (s.cap * 2 % 2 ^ 32) mem else some s)
        (none, s)
    else (
      some s.head,
      taken
          (record s { head = (s.rows s.head).next; tail = if s.tail == s.head then 0 else s.tail })
          s.head,
    )

-- `xdb_stg_free`
unfoldable pub free : Stg → ℕ → Stg
free s rid =
    let cleared = record (mark s.ctl_off row_free (s.rows rid)) { next = 0 } in
    let rows = update s.rows rid cleared in
    if s.tail == 0
    then record s { rows = rows; head = rid; tail = rid; count = s.count - 1 }
    else record s {
      rows = update rows s.tail (record (rows s.tail) { next = rid });
      tail = rid;
      count = s.count - 1;
    }

-- `xdb_stg_init`
unfoldable pub init : Stg → Stg
init s = record s { head = 0; tail = 0; count = 0 }

-- `XDB_IDPTR`: the offset of a block from the header. `id * blk_size` is computed in 32 bits, and
-- `pBlkDat1` is one block before the first.
unfoldable pub id_ptr : Stg → ℕ → ℕ
id_ptr s id = s.blk_off + id * s.blk_size % 2 ^ 32 - s.blk_size
