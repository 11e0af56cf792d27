-- ===== src/Trans/Delete.antt =====
-- `xdb_row_delete` in a transaction: what the connections see before the commit.
use cross_db.Base.{
  ℕ, ◌^◌, ◌<◌, ◌≡◌, refl, sym, ap, ◌∙◌, Bool, true, false, ◌==◌, if◌then◌else◌, Option, none, some,
  update-same, Bool-cases, inl, inr, ==→eq,
}
use cross_db.Bmp.Leaf.{Leaf}
use cross_db.Bmp.Root.{Bmp, Node}
use cross_db.Bmp.Root.Valid.{member, IsValid}
use cross_db.Bmp.Root.Laws.{set_lem}
use cross_db.Store.{row_commit}
use cross_db.Index.{IdxOps}
use cross_db.Trans.{Table, TblTrans, DbTrans, ctrl_of, row_valid, is_fast, delete}
use cross_db.Trans.Seen.{Marked, seen, valid_some, seen_committed}
use cross_db.Trans.Change.{Changed, enough, with_lists, addrow-del}

-- What `xdb_row_delete` does with the row `rid`.
pub record Deleted {o : IdxOps} (tid : ℕ) (others own : ℕ → Option Bool)
    (r : Option (Table o × DbTrans)) : Type 0 where
  pub table : Table o
  pub trans : DbTrans
  pub runs : r ≡ some (table, trans)
  pub changed : Changed tid table trans others own

-- Everything as before but the row `rid`, which is gone.
abbrev pub but : ℕ → (ℕ → Option Bool) → ℕ → Option Bool
but rid view y = if y == rid then some false else view y

-- A committed row is put on the list.
module _ {o : IdxOps} (t : Table o) (d : DbTrans) (tid : ℕ) (w : TblTrans) (rid : ℕ)
    (e : d.tbl_trans tid ≡ some w) (m : Marked t w) (old : ctrl_of (t.stg.rows rid) ≡ row_commit)
    (b : Bmp) (vb : IsValid b)
    (has : (j : ℕ) → member b j ≡ (if j == rid then true else member w.del_rows j)) where
  abbrev listed_del : TblTrans
  listed_del = record w { del_rows = b }

  delete-Marked : Marked t listed_del
  delete-Marked = record {
    tail_free = m.tail_free;
    new_valid = m.new_valid;
    del_valid = vb;
    new_trans = m.new_trans;
    del_commit = λ r h. elim (Bool-cases (r == rid)) [
      | inl q ↦ ap (λ x. ctrl_of (t.stg.rows x)) (==→eq r rid q) ∙ old
      | inr q ↦
          m.del_commit r (sym (has r ∙ ap (λ c. if c then true else member w.del_rows r) q) ∙ h)
    ];
  }

  delete_own :
      (d' : DbTrans)
      → d'.tbl_trans tid ≡ some listed_del
      → (y : ℕ) → y < 2 ^ 31
      → row_valid t (some d') tid y ≡ but rid (row_valid t (some d) tid) y
  delete_own d' e' y h =
      valid_some t d' tid y listed_del e' m.new_valid vb h
      ∙ ap (λ a. some (seen t.ttl t.cur_ts (t.stg.rows y) (member w.new_rows y) a)) (has y)
      ∙ elim (Bool-cases (y == rid)) [
        | inl q ↦ rw q (
            ap some (
              seen_committed t.ttl t.cur_ts (t.stg.rows y) (member w.new_rows y) true
                (ap (λ x. ctrl_of (t.stg.rows x)) (==→eq y rid q) ∙ old)))
        | inr q ↦ rw q (sym (valid_some t d tid y w e m.new_valid m.del_valid h))
      ]

-- `xdb_row_delete` of a committed row below 2 ^ 31, for a table whose lists are marked and outside
-- the fast path, when malloc gives memory where it is called: of the rows below 2 ^ 31, those
-- without a transaction see all as before, and the connection does not see this one any more and
-- sees the others as before; the lists stay marked.
pub delete_lem :
    {o : IdxOps} (t : Table o) (d : DbTrans) (tid : ℕ) (w : TblTrans) (auto : Bool) (rid : ℕ)
    (mt : Option TblTrans) (n : Node) (l : Leaf)
    → d.tbl_trans tid ≡ some w
    → Marked t w
    → is_fast t auto ≡ false
    → rid < 2 ^ 31
    → ctrl_of (t.stg.rows rid) ≡ row_commit
    → Deleted tid
        (row_valid t none tid)
        (but rid (row_valid t (some d) tid))
        (delete t d tid auto (enough mt n l) rid)
unfolding delete
delete_lem t d tid w auto rid mt n l e m slow h old =
    let s = set_lem w.del_rows rid n l m.del_valid h in
    let w' = record w { del_rows = s.result } in
    record {
      table = t;
      trans = with_lists d tid w';
      runs = rw (slow, old, addrow-del d tid w e mt n l rid s) refl;
      changed = record {
        lists = w';
        listed = update-same d.tbl_trans tid (some w');
        marked = delete-Marked t d tid w rid e m old s.result s.valid s.has;
        seen_others = λ y u. refl;
        seen_own =
            delete_own t d tid w rid e m old s.result s.valid s.has (with_lists d tid w')
              (update-same d.tbl_trans tid (some w'));
      };
    }
