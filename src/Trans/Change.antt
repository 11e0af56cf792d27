-- ===== src/Trans/Change.antt =====
-- Insertion and deletion of a row in a transaction: what the connections see of it before the commit.
use cross_db.Base.{
  ℕ, ◌^◌, ◌<◌, ◌≡◌, ◌≢◌, refl, sym, ap, ◌∙◌, subst, Bool, true, false, ◌==◌, if◌then◌else◌, arith,
  Option, none, some, update, update-same, update-other, Bool-cases, inl, inr,
}
use cross_db.Bmp.Leaf
use cross_db.Bmp.Leaf.{Leaf}
use cross_db.Bmp.Root
use cross_db.Bmp.Root.{Bmp, Node, ok}
use cross_db.Bmp.Root.Valid.{member, IsValid}
use cross_db.Bmp.Root.Laws.{set_lem, SetDone}
use cross_db.Bmp.Root.Clear.{ClrDone}
use cross_db.Store.{Row, row_dirty, row_trans}
use cross_db.Index.{IdxOps, add_row}
use cross_db.Trans.{
  Table, TblTrans, DbTrans, AddMemory, ctrl_of, alive, row_valid, addrow, add_to, delrow, new_row,
  is_fast, insert_at,
}
use cross_db.Trans.Seen.{Marked, seen, valid_none, valid_some, seen_new}

-- malloc gives memory.
abbrev pub enough : Option TblTrans → Node → Leaf → AddMemory
enough mt n l = record { tbl = mt; node = some n; leaf = some l }

-- What a change leaves of a table and its lists: `others` is what connections without a transaction see,
-- `own` what the connection itself sees.
pub record Changed {o : IdxOps} (tid : ℕ) (t : Table o) (d : DbTrans) (others own : ℕ → Option Bool)
    : Type 0 where
  pub lists : TblTrans
  pub listed : d.tbl_trans tid ≡ some lists
  pub marked : Marked t lists
  pub seen_others : (y : ℕ) → y < 2 ^ 31 → row_valid t none tid y ≡ others y
  pub seen_own : (y : ℕ) → y < 2 ^ 31 → row_valid t (some d) tid y ≡ own y

abbrev pub with_lists : DbTrans → ℕ → TblTrans → DbTrans
with_lists d tid w = record d {
  tbl_rows = Leaf.set d.tbl_rows tid;
  tbl_trans = update d.tbl_trans tid (some w);
}

module _ (d : DbTrans) (tid : ℕ) (w : TblTrans) (e : d.tbl_trans tid ≡ some w)
    (mt : Option TblTrans) (n : Node) (l : Leaf) (rid : ℕ) where
  addrow-new :
      (s : SetDone w.new_rows rid (Root.set w.new_rows rid (some n) (some l)))
      → addrow d tid (enough mt n l) rid true
        ≡ some (with_lists d tid (record w { new_rows = s.result }), ok)
  unfolding addrow add_to
  addrow-new s = rw (addrow, e, s.runs) refl

  pub addrow-del :
      (s : SetDone w.del_rows rid (Root.set w.del_rows rid (some n) (some l)))
      → addrow d tid (enough mt n l) rid false
        ≡ some (with_lists d tid (record w { del_rows = s.result }), ok)
  unfolding addrow add_to
  addrow-del s = rw (addrow, e, s.runs) refl

pub delrow_lem :
    (d : DbTrans) (tid : ℕ) (w : TblTrans)
    → d.tbl_trans tid ≡ some w
    → (rid : ℕ) (c : ClrDone w.new_rows rid (Root.clr w.new_rows rid))
    → delrow d tid rid
      ≡ some (record d {
        tbl_trans = update d.tbl_trans tid (some (record w { new_rows = c.result }));
      })
unfolding delrow
delrow_lem d tid w e rid c = rw (e, c.runs) refl

-- A row of the block `rid`, just allocated, that all indexes take.
module _ {o : IdxOps} (t : Table o) (d : DbTrans) (tid : ℕ) (w : TblTrans) (auto : Bool) (row : Row)
    (rid : ℕ) (slow : is_fast t auto ≡ false)
    (taken : (add_row o t.idx_order t.idx rid (new_row false row)).0 ≡ true) where
  abbrev t_new : Table o
  t_new = record t {
    stg = record t.stg { rows = update t.stg.rows rid (new_row false row) };
    idx = (add_row o t.idx_order t.idx rid (new_row false row)).1;
  }

  insert_runs :
      (m : AddMemory) (d' : DbTrans)
      → addrow d tid m rid true ≡ some (d', ok)
      → insert_at t d tid auto row m rid ≡ some (some rid, t_new, d')
  unfolding insert_at
  insert_runs m d' r = rw (slow, taken, r) refl

-- What `xdb_row_insert` does with the block `rid` that it got.
pub record Inserted {o : IdxOps} (t : Table o) (d : DbTrans) (tid rid : ℕ) (row : Row)
    (r : Option (Option ℕ × Table o × DbTrans)) : Type 0 where
  pub table : Table o
  pub trans : DbTrans
  pub runs : r ≡ some (some rid, table, trans)
  pub mine : ctrl_of (table.stg.rows rid) ≡ row_trans
  pub changed :
      Changed tid table trans
        (λ y. if y == rid then some false else row_valid t none tid y)
        (λ y. if y == rid then some (alive t.ttl t.cur_ts row) else row_valid t (some d) tid y)

alive-new_row :
    (ttl : Option (ℕ → ℕ → ℕ)) (now : ℕ) (row : Row)
    → alive ttl now (new_row false row) ≡ alive ttl now row
alive-new_row none now row = refl
alive-new_row (some f) now row = refl

ctrl_of-new_row : (row : Row) → ctrl_of (new_row false row) ≡ 3
ctrl_of-new_row row = omega arith

module _ {o : IdxOps} (t : Table o) (d : DbTrans) (tid : ℕ) (w : TblTrans) (row : Row) (rid : ℕ)
    (idx : ℕ → o.Idx) (m : Marked t w) (dirty : ctrl_of (t.stg.rows rid) ≡ row_dirty) (b : Bmp)
    (vb : IsValid b) (has : (j : ℕ) → member b j ≡ (if j == rid then true else member w.new_rows j))
    (listed : d.tbl_trans tid ≡ some w) where
  abbrev rows_new : ℕ → Row
  rows_new = update t.stg.rows rid (new_row false row)

  abbrev table_new : Table o
  table_new = record t { stg = record t.stg { rows = rows_new }; idx = idx }

  abbrev lists_new : TblTrans
  lists_new = record w { new_rows = b }

  not_rid : (r : ℕ) → member w.del_rows r ≡ true → r ≢ rid
  not_rid r h q = omega (arith, dirty, ap (λ x. ctrl_of (t.stg.rows x)) q, m.del_commit r h)

  insert-Marked : t.stg.tail ≢ rid → Marked table_new lists_new
  insert-Marked apart = record {
    tail_free = record {
      ctl = m.tail_free.ctl;
      tail = λ n.
          subst (λ (x : Row). ctrl_of x < 2)
            (sym (update-other t.stg.rows rid t.stg.tail (new_row false row) apart))
            (m.tail_free.tail n);
    };
    new_valid = vb;
    del_valid = m.del_valid;
    new_trans = λ r h. elim (Bool-cases (r == rid)) [
      | inl q ↦ rw q (ctrl_of-new_row row)
      | inr q ↦
          rw q
            (m.new_trans r (sym (has r ∙ ap (λ c. if c then true else member w.new_rows r) q) ∙ h))
    ];
    del_commit = λ r h.
        ap ctrl_of (update-other t.stg.rows rid r (new_row false row) (not_rid r h))
        ∙ m.del_commit r h;
  }

  insert_others :
      (y : ℕ)
      → row_valid table_new none tid y ≡ (if y == rid then some false else row_valid t none tid y)
  insert_others y = valid_none table_new tid y ∙ elim (Bool-cases (y == rid)) [
    | inl q ↦
        rw q
          (ap some (seen_new t.ttl t.cur_ts (new_row false row) false false (ctrl_of-new_row row)))
    | inr q ↦ rw q (sym (valid_none t tid y))
  ]

  insert_own :
      (d' : DbTrans)
      → d'.tbl_trans tid ≡ some lists_new
      → (y : ℕ) → y < 2 ^ 31
      → row_valid table_new (some d') tid y
        ≡ (if y == rid then some (alive t.ttl t.cur_ts row) else row_valid t (some d) tid y)
  insert_own d' e y h =
      valid_some table_new d' tid y lists_new e vb m.del_valid h
      ∙ ap (λ a. some (seen t.ttl t.cur_ts (rows_new y) a (member w.del_rows y))) (has y)
      ∙ elim (Bool-cases (y == rid)) [
        | inl q ↦ rw q (
            ap some (
              seen_new t.ttl t.cur_ts (new_row false row) true (member w.del_rows y)
                (ctrl_of-new_row row)
              ∙ alive-new_row t.ttl t.cur_ts row))
        | inr q ↦ rw q (sym (valid_some t d tid y w listed m.new_valid m.del_valid h))
      ]

-- `xdb_row_insert` from the block `rid` (below 2 ^ 31) on, for a table whose lists are marked and
-- outside the fast path, when the indexes take the row, malloc gives memory where it is called, and
-- the block is fresh (its control byte is dirty, and it is not the tail of the free blocks): the
-- row is given and marked XDB_ROW_TRANS; of the rows below 2 ^ 31, those without a transaction do
-- not see this one, the connection sees it (unless its TTL is over), and both see the others as
-- before; the lists stay marked.
pub insert_lem :
    {o : IdxOps} (t : Table o) (d : DbTrans) (tid : ℕ) (w : TblTrans) (auto : Bool) (row : Row)
    (rid : ℕ) (mt : Option TblTrans) (n : Node) (l : Leaf)
    → d.tbl_trans tid ≡ some w
    → Marked t w
    → is_fast t auto ≡ false
    → rid < 2 ^ 31
    → ctrl_of (t.stg.rows rid) ≡ row_dirty
    → t.stg.tail ≢ rid
    → (add_row o t.idx_order t.idx rid (new_row false row)).0 ≡ true
    → Inserted t d tid rid row (insert_at t d tid auto row (enough mt n l) rid)
insert_lem t d tid w auto row rid mt n l e m slow h dirty apart taken =
    let s = set_lem w.new_rows rid n l m.new_valid h in
    let w' = record w { new_rows = s.result } in
    let idx = (add_row _ t.idx_order t.idx rid (new_row false row)).1 in
    record {
      table = t_new t d tid w auto row rid slow taken;
      trans = with_lists d tid w';
      runs =
          insert_runs t d tid w auto row rid slow taken (enough mt n l) (with_lists d tid w')
            (addrow-new d tid w e mt n l rid s);
      mine = ap ctrl_of (update-same t.stg.rows rid (new_row false row)) ∙ ctrl_of-new_row row;
      changed = record {
        lists = w';
        listed = update-same d.tbl_trans tid (some w');
        marked = insert-Marked t d tid w row rid idx m dirty s.result s.valid s.has e apart;
        seen_others = λ y u. insert_others t d tid w row rid idx m dirty s.result s.valid s.has e y;
        seen_own =
            insert_own t d tid w row rid idx m dirty s.result s.valid s.has e (with_lists d tid w')
              (update-same d.tbl_trans tid (some w'));
      };
    }
