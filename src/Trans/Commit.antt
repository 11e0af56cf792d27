-- ===== src/Trans/Commit.antt =====
-- Commit and rollback of one table: what the connections see of its rows afterwards.
use mathlib.Core.Bool.{false≢true}
use cross_db.Base.{
  ℕ, ◌^◌, ◌<◌, ◌≡◌, refl, sym, ap, ◌∙◌, subst, Bool, false, if◌then◌else◌, arith, Option, none,
  some, List, update, update-same, Bool-cases, inl, inr,
}
use cross_db.Bmp.Scan.{contains, scan}
use cross_db.Bmp.Root.Valid.{member}
use cross_db.Bmp.Root.Laws.{init-IsValid, member-init}
use cross_db.Bmp.Root.Iterate.{iterate_lem}
use cross_db.Store.{Row, row_commit}
use cross_db.Index.{IdxOps}
use cross_db.Trans.{
  Table, TblTrans, DbTrans, ctrl_of, row_valid, init_tbl, each, remove, newrow_commit, tbl_commit,
  tbl_rollback, with_ctrl,
}
use cross_db.Trans.Rows.{
  TailFree, remove_all-TailFree, remove_all-ctrl, remove_all-row, commit_all-row, remove_all-Kept,
  commit_all-Same,
}
use cross_db.Trans.Seen.{
  Marked, seen, valid_none, valid_some, listed, listed-true, commit_seen, rollback_seen,
}

-- What the end of a transaction leaves of a table: `others` is what connections without a transaction
-- see of a row, `own` what the connection itself sees.
pub record Ended {o : IdxOps} (d : DbTrans) (tid : ℕ) (view : ℕ → Option Bool)
    (r : Option (Table o × TblTrans)) : Type 0 where
  pub table : Table o
  pub lists : TblTrans
  pub runs : r ≡ some (table, lists)
  pub marked : Marked table lists
  pub no_new : (y : ℕ) → member lists.new_rows y ≡ false
  pub no_del : (y : ℕ) → member lists.del_rows y ≡ false
  pub others : (y : ℕ) → y < 2 ^ 31 → row_valid table none tid y ≡ view y
  pub own :
      (y : ℕ)
      → y < 2 ^ 31
      → row_valid table (some (record d { tbl_trans = update d.tbl_trans tid (some lists) })) tid y
        ≡ view y

module _ {o : IdxOps} where
  -- With empty lists a connection sees what the others see.
  own_view :
      (t : Table o) (d : DbTrans) (tid y : ℕ) (w : TblTrans)
      → y < 2 ^ 31
      → row_valid t
          (some (record d { tbl_trans = update d.tbl_trans tid (some (init_tbl w)) }))
          tid
          y
        ≡ row_valid t none tid y
  unfolding init_tbl
  own_view t d tid y w h =
      valid_some t _ tid y (init_tbl w) (update-same d.tbl_trans tid (some (init_tbl w)))
        (init-IsValid w.new_rows) (init-IsValid w.del_rows) h
      ∙ rw (member-init w.new_rows y, member-init w.del_rows y) (sym (valid_none t tid y))

  pub init-Marked : (t : Table o) (w : TblTrans) → TailFree t.stg → Marked t (init_tbl w)
  unfolding init_tbl
  init-Marked t w v = record {
    tail_free = v;
    new_valid = init-IsValid w.new_rows;
    del_valid = init-IsValid w.del_rows;
    new_trans = λ r e. absurd (false≢true (sym (member-init w.new_rows r) ∙ e));
    del_commit = λ r e. absurd (false≢true (sym (member-init w.del_rows r) ∙ e));
  }

  tail_kept :
      (t : Table o) (w : TblTrans)
      → Marked t w
      → ctrl_of (t.stg.rows t.stg.tail) < 2
      → ctrl_of ((each newrow_commit t (scan (member w.new_rows) 0 (2 ^ 31))).stg.rows t.stg.tail)
        < 2
  tail_kept t w m old =
      let news = scan (member w.new_rows) 0 (2 ^ 31) in
      elim (Bool-cases (contains t.stg.tail news)) [
        | inl c ↦ omega (arith, old, m.new_trans t.stg.tail (listed-true w.new_rows t.stg.tail c))
        | inr c ↦
            subst (λ (r : Row). ctrl_of r < 2)
              (sym (
                commit_all-row t news t.stg.tail
                ∙ ap
                    (λ b.
                      if b
                      then with_ctrl row_commit (t.stg.rows t.stg.tail)
                      else t.stg.rows t.stg.tail)
                    c))
              old
      ]

  commit_all-TailFree :
      (t : Table o) (w : TblTrans)
      → Marked t w
      → TailFree (each newrow_commit t (scan (member w.new_rows) 0 (2 ^ 31))).stg
  commit_all-TailFree t w m =
      let news = scan (member w.new_rows) 0 (2 ^ 31) in
      let s = commit_all-Same t news in
      record {
        ctl = omega (arith, m.tail_free.ctl, s.off);
        tail = λ n.
            subst (λ x. ctrl_of ((each newrow_commit t news).stg.rows x) < 2) (sym s.tail)
              (tail_kept t w m (m.tail_free.tail (λ q. n (s.tail ∙ q))));
      }

  module _ (t : Table o) (d : DbTrans) (tid : ℕ) (w : TblTrans) (e : d.tbl_trans tid ≡ some w)
      (m : Marked t w) where
    abbrev news : List ℕ
    news = scan (member w.new_rows) 0 (2 ^ 31)

    abbrev dels : List ℕ
    dels = scan (member w.del_rows) 0 (2 ^ 31)

    abbrev t1 : Table o
    t1 = each newrow_commit t news

    abbrev t2 : Table o
    t2 = each remove t1 dels

    commit_view : (y : ℕ) → y < 2 ^ 31 → row_valid t2 none tid y ≡ row_valid t (some d) tid y
    commit_view y h =
        let k = remove_all-Kept t1 dels in
        let s = commit_all-Same t news in
        let v = commit_all-TailFree t w m in
        let row = t.stg.rows y in
        let seen_same =
          commit_seen t.ttl t.cur_ts row (t1.stg.rows y) (t2.stg.rows y) (member w.new_rows y)
            (member w.del_rows y) (m.new_trans y) (m.del_commit y)
            (commit_all-row t news y
              ∙ ap (λ b. if b then with_ctrl row_commit row else row) (listed w.new_rows y h))
            (remove_all-ctrl t1 dels y v
              ∙ ap (λ b. if b then 0 else (t1.stg.rows y).ctrl) (listed w.del_rows y h))
            (λ q u. remove_all-row t1 dels y v (listed w.del_rows y h ∙ q) u) in
        valid_none t2 tid y
        ∙ ap (λ a. some (seen a t2.cur_ts (t2.stg.rows y) false false)) (k.ttl ∙ s.ttl)
        ∙ ap (λ a. some (seen t.ttl a (t2.stg.rows y) false false)) (k.now ∙ s.now)
        ∙ ap some seen_same
        ∙ sym (valid_some t d tid y w e m.new_valid m.del_valid h)

    abbrev t3 : Table o
    t3 = each remove t news

    rollback_view : (y : ℕ) → y < 2 ^ 31 → row_valid t3 none tid y ≡ row_valid t none tid y
    rollback_view y h =
        let k = remove_all-Kept t news in
        let seen_same =
          rollback_seen t.ttl t.cur_ts (t.stg.rows y) (t3.stg.rows y) (member w.new_rows y)
            (m.new_trans y)
            (remove_all-ctrl t news y m.tail_free
              ∙ ap (λ b. if b then 0 else (t.stg.rows y).ctrl) (listed w.new_rows y h))
            (λ q u. remove_all-row t news y m.tail_free (listed w.new_rows y h ∙ q) u) in
        valid_none t3 tid y
        ∙ ap (λ a. some (seen a t3.cur_ts (t3.stg.rows y) false false)) k.ttl
        ∙ ap (λ a. some (seen t.ttl a (t3.stg.rows y) false false)) k.now
        ∙ ap some seen_same
        ∙ sym (valid_none t tid y)

-- `xdb_trans_tbl_commit` for a table whose lists are marked: no NULL is read, both lists are empty
-- afterwards, and the connection and those without a transaction see of each row below 2 ^ 31 what the
-- connection saw before.
pub commit_lem :
    {o : IdxOps} (t : Table o) (d : DbTrans) (tid : ℕ) (w : TblTrans)
    → d.tbl_trans tid ≡ some w
    → Marked t w
    → Ended d tid (row_valid t (some d) tid) (tbl_commit t w)
unfolding tbl_commit init_tbl
commit_lem t d tid w e m = record {
  table = t2 t d tid w e m;
  lists = init_tbl w;
  runs = rw (iterate_lem w.new_rows m.new_valid, iterate_lem w.del_rows m.del_valid) refl;
  marked =
      init-Marked (t2 t d tid w e m) w
        (remove_all-TailFree (t1 t d tid w e m) (dels t d tid w e m) (commit_all-TailFree t w m));
  no_new = member-init w.new_rows;
  no_del = member-init w.del_rows;
  others = commit_view t d tid w e m;
  own = λ y h. own_view (t2 t d tid w e m) d tid y w h ∙ commit_view t d tid w e m y h;
}

-- `xdb_trans_tbl_rollback` for a table whose lists are marked: no NULL is read, both lists are empty
-- afterwards, and the connection and those without a transaction see of each row below 2 ^ 31 what
-- those without a transaction saw before.
pub rollback_lem :
    {o : IdxOps} (t : Table o) (d : DbTrans) (tid : ℕ) (w : TblTrans)
    → d.tbl_trans tid ≡ some w
    → Marked t w
    → Ended d tid (row_valid t none tid) (tbl_rollback t w)
unfolding tbl_rollback init_tbl
rollback_lem t d tid w e m = record {
  table = t3 t d tid w e m;
  lists = init_tbl w;
  runs = rw (iterate_lem w.new_rows m.new_valid) refl;
  marked =
      init-Marked (t3 t d tid w e m) w (remove_all-TailFree t (news t d tid w e m) m.tail_free);
  no_new = member-init w.new_rows;
  no_del = member-init w.del_rows;
  others = rollback_view t d tid w e m;
  own = λ y h. own_view (t3 t d tid w e m) d tid y w h ∙ rollback_view t d tid w e m y h;
}
