-- ===== src/Trans/Tests.antt =====
-- A transaction on one table: a row is inserted and another one is deleted, and the theorems at it.
use cross_db.Base.{ℕ, refl, true, false, arith, none, some, List, [], ◌∷◌, ◌==◌, if◌then◌else◌}
use cross_db.Bmp.Leaf
use cross_db.Bmp.Leaf.{Leaf}
use cross_db.Bmp.Root.{Bmp, Node}
use cross_db.Store.{Row, Stg}
use cross_db.Index.{IdxOps, add_row, add_from}
use cross_db.Trans.{
  Table, TblTrans, DbTrans, row_valid, init_tbl, insert_at, delete, tbl_commit, tbl_rollback,
}
use cross_db.Trans.Seen.{Marked}
use cross_db.Trans.Commit.{Ended, commit_lem, rollback_lem, init-Marked}
use cross_db.Trans.Change.{Inserted, insert_lem, enough}
use cross_db.Trans.Delete.{Deleted, delete_lem, but}
use cross_db.Trans.Undo.{undo_lem}

-- Memory as it is found.
abbrev pub junk_leaf : Leaf
junk_leaf = record { bmp4 = 5; bmp5 = λ _. 9; count = 77; b_malloc = true }

abbrev pub junk_node : Node
junk_node = record { bmp2 = 3; bmp3 = λ _. 1; leaves = λ _ _. none; b_malloc = true }

abbrev pub junk : Bmp
junk = record {
  bmp1 = λ _. 1;
  nodes = λ _ _. none;
  lv1_bmp = λ _. junk_node;
  lv2_bmp = λ _. junk_leaf;
  lv1_alloc = 9;
  lv2_alloc = 9;
}

-- An index that takes every row.
abbrev pub ids : IdxOps
ids = record { Idx = List ℕ; add = λ x rid row. some (rid ∷ x); rem = λ x rid row. x }

abbrev pub row : ℕ → Row
row n = record { next = 0; ctrl = 0; payload = n }

-- The block 1 holds a committed row, and the block 2 was just allocated.
abbrev pub blocks : ℕ → Row
blocks id =
    if id == 1
    then record { next = 4; ctrl = 2; payload = 7 }
    else if id == 2
    then record { next = 0; ctrl = 1; payload = 0 }
    else row 0

abbrev pub stg : Stg
stg = record {
  blk_size = 64;
  blk_off = 128;
  ctl_off = 62;
  no_alloc = false;
  clear = true;
  head = 0;
  tail = 0;
  count = 2;
  maxid = 2;
  cap = 2;
  rows = blocks;
  mapped = 256;
}

abbrev pub tbl : Table ids
tbl = record {
  stg = stg;
  idx_order = 0 ∷ [];
  idx = λ _. [];
  in_memory = false;
  ttl = none;
  cur_ts = 0;
}

abbrev pub lists : TblTrans
lists = init_tbl (record { new_rows = junk; del_rows = junk })

abbrev pub db : DbTrans
db = record {
  tbl_wrlocks = Leaf.init junk_leaf;
  tbl_rdlocks = Leaf.init junk_leaf;
  tbl_rows = Leaf.init junk_leaf;
  tbl_trans = λ tid. if tid == 3 then some lists else none;
}

pub lists-Marked : Marked tbl lists
lists-Marked =
    init-Marked tbl (record { new_rows = junk; del_rows = junk })
      (record { ctl = omega arith; tail = λ n. absurd (n refl) })

abbrev pub with_two :
    Inserted tbl db 3 2
      (row 9)
      (insert_at tbl db 3 true (row 9) (enough none junk_node junk_leaf) 2)
unfolding add_row add_from
with_two =
    insert_lem tbl db 3 lists true (row 9) 2 none junk_node junk_leaf refl lists-Marked refl
      (omega arith) refl (λ e. omega (arith, e)) refl

insert_lem_example :
    Inserted tbl db 3 2
      (row 9)
      (insert_at tbl db 3 true (row 9) (enough none junk_node junk_leaf) 2)
unfolding add_row add_from
insert_lem_example =
    insert_lem tbl db 3 lists true (row 9) 2 none junk_node junk_leaf refl lists-Marked refl
      (omega arith) refl (λ e. omega (arith, e)) refl

delete_lem_example :
    Deleted 3
      (row_valid tbl none 3)
      (but 1 (row_valid tbl (some db) 3))
      (delete tbl db 3 true (enough none junk_node junk_leaf) 1)
delete_lem_example =
    delete_lem tbl db 3 lists true 1 none junk_node junk_leaf refl lists-Marked refl (omega arith)
      refl

undo_lem_example :
    Deleted 3
      (but 2 (row_valid with_two.table none 3))
      (but 2 (row_valid with_two.table (some with_two.trans) 3))
      (delete with_two.table with_two.trans 3 true (enough none junk_node junk_leaf) 2)
undo_lem_example =
    undo_lem with_two.table with_two.trans 3 with_two.changed.lists true 2
      (enough none junk_node junk_leaf) with_two.changed.listed with_two.changed.marked
      (omega arith) with_two.mine

commit_lem_example :
    Ended with_two.trans 3
      (row_valid with_two.table (some with_two.trans) 3)
      (tbl_commit with_two.table with_two.changed.lists)
commit_lem_example =
    commit_lem with_two.table with_two.trans 3 with_two.changed.lists with_two.changed.listed
      with_two.changed.marked

rollback_lem_example :
    Ended with_two.trans 3
      (row_valid with_two.table none 3)
      (tbl_rollback with_two.table with_two.changed.lists)
rollback_lem_example =
    rollback_lem with_two.table with_two.trans 3 with_two.changed.lists with_two.changed.listed
      with_two.changed.marked
