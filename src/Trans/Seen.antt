-- ===== src/Trans/Seen.antt =====
-- What `xdb_row_valid` answers, and what a commit or a rollback makes of it for one row.
use cross_db.Base.{
  ℕ, ◌+◌, ◌^◌, ◌<◌, ◌≤◌, ◌≡◌, refl, sym, ap, ◌∙◌, Bool, true, false, not, ◌==◌, ltb, leb, ◌&&◌,
  if◌then◌else◌, arith, Option, none, some, Bool-cases, inl, inr, lt→ltb, le→leb, ltb→lt,
}
use cross_db.Bmp.Scan.{contains, scan, contains-scan}
use cross_db.Bmp.Word.{bit}
use cross_db.Bmp.Root.{Bmp}
use cross_db.Bmp.Root.Valid.{member, IsValid}
use cross_db.Bmp.Root.Laws.{get_lem}
use cross_db.Store.{Row, row_commit, row_trans}
use cross_db.Index.{IdxOps}
use cross_db.Trans.{Table, TblTrans, DbTrans, ctrl_of, alive, getrow, row_valid, with_ctrl}
use cross_db.Trans.Rows.{TailFree}

-- The lists of a connection that holds the write lock of the table: the new rows are marked as such, and
-- the deleted rows are committed ones.
pub record Marked {o : IdxOps} (t : Table o) (w : TblTrans) : Type 0 where
  pub tail_free : TailFree t.stg
  pub new_valid : IsValid w.new_rows
  pub del_valid : IsValid w.del_rows
  pub new_trans : (r : ℕ) → member w.new_rows r ≡ true → ctrl_of (t.stg.rows r) ≡ row_trans
  pub del_commit : (r : ℕ) → member w.del_rows r ≡ true → ctrl_of (t.stg.rows r) ≡ row_commit

-- `xdb_row_valid` of a row, by the answers of the two lists.
abbrev pub seen : Option (ℕ → ℕ → ℕ) → ℕ → Row → Bool → Bool → Bool
seen ttl now row is_new is_del =
    if ltb (ctrl_of row) row_commit
    then false
    else if (if ctrl_of row == row_commit then not is_del else is_new)
    then alive ttl now row
    else false

module _ {o : IdxOps} where
  pub valid_none :
      (t : Table o) (tid r : ℕ)
      → row_valid t none tid r ≡ some (seen t.ttl t.cur_ts (t.stg.rows r) false false)
  unfolding row_valid getrow
  valid_none t tid r = ground arith

  pub valid_some :
      (t : Table o) (d : DbTrans) (tid r : ℕ) (w : TblTrans)
      → d.tbl_trans tid ≡ some w
      → IsValid w.new_rows
      → IsValid w.del_rows
      → r < 2 ^ 31
      → row_valid t (some d) tid r
        ≡ some (seen t.ttl t.cur_ts (t.stg.rows r) (member w.new_rows r) (member w.del_rows r))
  unfolding row_valid getrow bit
  valid_some t d tid r w e vn vd h =
      let answer_new : getrow (some d) tid r true ≡ some (member w.new_rows r) =
        rw (getrow, e) (get_lem w.new_rows r vn h) in
      let answer_del : getrow (some d) tid r false ≡ some (member w.del_rows r) =
        rw (getrow, e) (get_lem w.del_rows r vd h) in
      rw (answer_new, answer_del) (ground arith)

pub listed : (b : Bmp) (r : ℕ) → r < 2 ^ 31 → contains r (scan (member b) 0 (2 ^ 31)) ≡ member b r
listed b r h =
    contains-scan (member b) r 0 (2 ^ 31) ∙ rw (le→leb 0 r (omega arith), lt→ltb r (2 ^ 31) h) refl

both : (a b c : Bool) → (a && b && c) ≡ true → c ≡ true
both a b c h = ground arith

pub listed-true :
    (b : Bmp) (r : ℕ) → contains r (scan (member b) 0 (2 ^ 31)) ≡ true → member b r ≡ true
listed-true b r h =
    both (leb 0 r) (ltb r (0 + 2 ^ 31)) _ (sym (contains-scan (member b) r 0 (2 ^ 31)) ∙ h)

module _ (ttl : Option (ℕ → ℕ → ℕ)) (now : ℕ) (row : Row) (n d : Bool) where
  pub unseen : ctrl_of row < 2 → seen ttl now row n d ≡ false
  unseen h = ground arith

  pub seen_committed :
      ctrl_of row ≡ 2 → seen ttl now row n d ≡ (if d then false else alive ttl now row)
  seen_committed h = ground arith

  pub seen_new : ctrl_of row ≡ 3 → seen ttl now row n d ≡ (if n then alive ttl now row else false)
  seen_new h = ground arith

with_ctrl-commit : (row : Row) → ctrl_of (with_ctrl row_commit row) ≡ 2
with_ctrl-commit row = omega arith

-- One row, before and after a commit: `row1` after the new rows, `row2` after the deleted ones.
pub commit_seen :
    (ttl : Option (ℕ → ℕ → ℕ)) (now : ℕ) (row row1 row2 : Row) (n d : Bool)
    → (n ≡ true → ctrl_of row ≡ row_trans)
    → (d ≡ true → ctrl_of row ≡ row_commit)
    → row1 ≡ (if n then with_ctrl row_commit row else row)
    → row2.ctrl ≡ (if d then 0 else row1.ctrl)
    → (d ≡ false → 2 ≤ ctrl_of row1 → row2 ≡ row1)
    → seen ttl now row2 false false ≡ seen ttl now row n d
commit_seen ttl now row row1 row2 n true hn hd e1 e2 e3 =
    unseen ttl now row2 false false (omega (arith, e2))
    ∙ sym (seen_committed ttl now row n true (hd refl))
commit_seen ttl now row row1 row2 true false hn hd e1 e2 e3 =
    let committed : ctrl_of row1 ≡ 2 = ap (λ r. ctrl_of r) e1 ∙ with_ctrl-commit row in
    let same : row2 ≡ with_ctrl row_commit row = e3 refl (omega (arith, committed)) ∙ e1 in
    ap (λ r. seen ttl now r false false) same
    ∙ seen_committed ttl now (with_ctrl row_commit row) false false (with_ctrl-commit row)
    ∙ alive_with_ctrl ttl now row
    ∙ sym (seen_new ttl now row true false (hn refl))
  where
    alive_with_ctrl :
        (ttl : Option (ℕ → ℕ → ℕ)) (now : ℕ) (row : Row)
        → alive ttl now (with_ctrl row_commit row) ≡ alive ttl now row
    alive_with_ctrl none now row = refl
    alive_with_ctrl (some f) now row = refl
commit_seen ttl now row row1 row2 false false hn hd e1 e2 e3 =
    elim (Bool-cases (ltb (ctrl_of row) 2)) [
      | inl h ↦
          unseen ttl now row2 false false
            (omega (arith, e2, ap (λ r. r.ctrl) e1, ltb→lt (ctrl_of row) 2 h))
          ∙ sym (unseen ttl now row false false (ltb→lt (ctrl_of row) 2 h))
      | inr h ↦
          ap (λ r. seen ttl now r false false)
            (e3 refl (ground (arith, h, ap (λ r. r.ctrl) e1)) ∙ e1)
    ]

-- After a rollback: the new rows are freed.
pub rollback_seen :
    (ttl : Option (ℕ → ℕ → ℕ)) (now : ℕ) (row row2 : Row) (n : Bool)
    → (n ≡ true → ctrl_of row ≡ row_trans)
    → row2.ctrl ≡ (if n then 0 else row.ctrl)
    → (n ≡ false → 2 ≤ ctrl_of row → row2 ≡ row)
    → seen ttl now row2 false false ≡ seen ttl now row false false
rollback_seen ttl now row row2 true hn e2 e3 =
    unseen ttl now row2 false false (omega (arith, e2))
    ∙ sym (seen_new ttl now row false false (hn refl))
rollback_seen ttl now row row2 false hn e2 e3 = elim (Bool-cases (ltb (ctrl_of row) 2)) [
  | inl h ↦
      unseen ttl now row2 false false (omega (arith, e2, ltb→lt (ctrl_of row) 2 h))
      ∙ sym (unseen ttl now row false false (ltb→lt (ctrl_of row) 2 h))
  | inr h ↦ ap (λ r. seen ttl now r false false) (e3 refl (ground (arith, h)))
]
