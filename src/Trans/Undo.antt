-- ===== src/Trans/Undo.antt =====
-- `xdb_row_delete` of a row that the same transaction inserted: the row is freed at once.
use mathlib.Core.Bool.{false≢true, or-true}
use cross_db.Base.{
  ℕ, ◌^◌, ◌%◌, ◌<◌, ◌≡◌, ◌≢◌, refl, sym, ap, ◌∙◌, Bool, false, ◌==◌, ltb, if◌then◌else◌, arith,
  none, some, update, update-same, Bool-cases, inl, inr, eq→==, ne→==, ==→eq, ==→ne, ltb→lt,
}
use cross_db.Bmp.Root.{Bmp}
use cross_db.Bmp.Root.Valid.{member, IsValid}
use cross_db.Bmp.Root.Clear.{clr_lem}
use cross_db.Store.{row_trans}
use cross_db.Index.{IdxOps}
use cross_db.Trans.{
  Table, TblTrans, DbTrans, AddMemory, ctrl_of, row_valid, is_fast, remove, delete,
}
use cross_db.Trans.Rows.{TailFree, free-ctrl, free-row, free-TailFree}
use cross_db.Trans.Seen.{Marked, seen, valid_none, valid_some, unseen}
use cross_db.Trans.Change.{delrow_lem}
use cross_db.Trans.Delete.{Deleted, but}

module _ {o : IdxOps} (t : Table o) (rid : ℕ) (v : TailFree t.stg) where
  -- Another row is read as before.
  removed_seen :
      (y : ℕ) (a b : Bool)
      → y ≢ rid
      → seen t.ttl t.cur_ts ((remove t rid).stg.rows y) a b ≡ seen t.ttl t.cur_ts (t.stg.rows y) a b
  unfolding remove
  removed_seen y a b n = elim (Bool-cases (ltb (ctrl_of (t.stg.rows y)) 2)) [
    | inl h ↦
        let low = ltb→lt (ctrl_of (t.stg.rows y)) 2 h in
        unseen t.ttl t.cur_ts ((remove t rid).stg.rows y) a b (
          omega (
            arith,
            low,
            free-ctrl t.stg rid y v.ctl
                ∙ ap (λ c. if c then 0 else (t.stg.rows y).ctrl) (ne→== y rid n),
          ))
        ∙ sym (unseen t.ttl t.cur_ts (t.stg.rows y) a b low)
    | inr h ↦ ap (λ r. seen t.ttl t.cur_ts r a b) (free-row t.stg rid y v n (ground (arith, h)))
  ]

  gone : (a b : Bool) → seen t.ttl t.cur_ts ((remove t rid).stg.rows rid) a b ≡ false
  unfolding remove
  gone a b = unseen t.ttl t.cur_ts ((remove t rid).stg.rows rid) a b (
      omega (
        arith,
        free-ctrl t.stg rid rid v.ctl
            ∙ ap (λ c. if c then 0 else (t.stg.rows rid).ctrl) (eq→== rid rid refl),
      ))

  ctrl_kept : (y : ℕ) → y ≢ rid → ((remove t rid).stg.rows y).ctrl ≡ (t.stg.rows y).ctrl
  unfolding remove
  ctrl_kept y n =
      free-ctrl t.stg rid y v.ctl ∙ ap (λ c. if c then 0 else (t.stg.rows y).ctrl) (ne→== y rid n)

module _ {o : IdxOps} (t : Table o) (d : DbTrans) (tid : ℕ) (w : TblTrans) (rid : ℕ)
    (e : d.tbl_trans tid ≡ some w) (m : Marked t w) (mine : ctrl_of (t.stg.rows rid) ≡ row_trans)
    (b : Bmp) (vb : IsValid b)
    (has : (j : ℕ) → member b j ≡ (if j == rid then false else member w.new_rows j)) where
  abbrev left : TblTrans
  left = record w { new_rows = b }

  undo-Marked : Marked (remove t rid) left
  unfolding remove
  undo-Marked = record {
    tail_free = free-TailFree t.stg rid m.tail_free;
    new_valid = vb;
    del_valid = m.del_valid;
    new_trans = λ r h. elim (Bool-cases (r == rid)) [
      | inl q ↦
          absurd
            (false≢true (sym (has r ∙ ap (λ c. if c then false else member w.new_rows r) q) ∙ h))
      | inr q ↦
          ap (λ c. c % 4) (ctrl_kept t rid m.tail_free r (==→ne r rid q))
          ∙ m.new_trans r (sym (has r ∙ ap (λ c. if c then false else member w.new_rows r) q) ∙ h)
    ];
    del_commit = λ r h.
        ap (λ c. c % 4)
          (ctrl_kept t rid m.tail_free r
            (λ q. omega (arith, mine, ap (λ x. ctrl_of (t.stg.rows x)) q, m.del_commit r h)))
        ∙ m.del_commit r h;
  }

  undo_others : (y : ℕ) → row_valid (remove t rid) none tid y ≡ but rid (row_valid t none tid) y
  unfolding remove
  undo_others y = valid_none (remove t rid) tid y ∙ elim (Bool-cases (y == rid)) [
    | inl q ↦ rw (q, ==→eq y rid q) (ap some (gone t rid m.tail_free false false))
    | inr q ↦ rw q (
        ap some (removed_seen t rid m.tail_free y false false (==→ne y rid q))
        ∙ sym (valid_none t tid y))
  ]

  undo_own :
      (d' : DbTrans)
      → d'.tbl_trans tid ≡ some left
      → (y : ℕ) → y < 2 ^ 31
      → row_valid (remove t rid) (some d') tid y ≡ but rid (row_valid t (some d) tid) y
  unfolding remove
  undo_own d' e' y h =
      valid_some (remove t rid) d' tid y left e' vb m.del_valid h
      ∙ ap (λ a. some (seen t.ttl t.cur_ts ((remove t rid).stg.rows y) a (member w.del_rows y)))
          (has y)
      ∙ elim (Bool-cases (y == rid)) [
        | inl q ↦
            rw (q, ==→eq y rid q) (ap some (gone t rid m.tail_free false (member w.del_rows rid)))
        | inr q ↦ rw q (
            ap some (
              removed_seen t rid m.tail_free y (member w.new_rows y) (member w.del_rows y)
                (==→ne y rid q))
            ∙ sym (valid_some t d tid y w e m.new_valid m.del_valid h))
      ]

-- `xdb_row_delete` of a row below 2 ^ 31 that is marked XDB_ROW_TRANS, for a table whose lists are
-- marked: no NULL is read; of the rows below 2 ^ 31, neither the connection nor those without a
-- transaction see this one any more, and they see the others as before; the lists stay marked.
pub undo_lem :
    {o : IdxOps} (t : Table o) (d : DbTrans) (tid : ℕ) (w : TblTrans) (auto : Bool) (rid : ℕ)
    (mem : AddMemory)
    → d.tbl_trans tid ≡ some w
    → Marked t w
    → rid < 2 ^ 31
    → ctrl_of (t.stg.rows rid) ≡ row_trans
    → Deleted tid
        (but rid (row_valid t none tid))
        (but rid (row_valid t (some d) tid))
        (delete t d tid auto mem rid)
unfolding delete
undo_lem t d tid w auto rid mem e m h mine =
    let c = clr_lem w.new_rows rid m.new_valid h in
    let w' = record w { new_rows = c.result } in
    let d' = record d { tbl_trans = update d.tbl_trans tid (some w') } in
    record {
      table = remove t rid;
      trans = d';
      runs = rw (mine, or-true (is_fast t auto), delrow_lem d tid w e rid c) refl;
      changed = record {
        lists = w';
        listed = update-same d.tbl_trans tid (some w');
        marked = undo-Marked t d tid w rid e m mine c.result c.valid c.has;
        seen_others = λ y u. undo_others t d tid w rid e m mine c.result c.valid c.has y;
        seen_own =
            undo_own t d tid w rid e m mine c.result c.valid c.has d'
              (update-same d.tbl_trans tid (some w'));
      };
    }
