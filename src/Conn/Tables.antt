-- ===== src/Conn/Tables.antt =====
-- `xdb_trans_db_commit` and `xdb_trans_db_rollback` end the transaction of each table on the list
-- `tbl_rows`, once, and leave the other tables alone.
use mathlib.Core.Option
use cross_db.Base.{
  ℕ, ◌<◌, ◌^◌, ◌≡◌, ◌≢◌, refl, sym, ap, ◌∙◌, Bool, Option, none, some, List, [], ◌∷◌, All, NotIn,
  Distinct, update, update-same, update-other,
}
use cross_db.Bmp.Leaf
use cross_db.Bmp.Leaf.Each.{iterate-Distinct}
use cross_db.Index.{IdxOps}
use cross_db.Trans.{Table, TblTrans, row_valid, tbl_commit, tbl_rollback}
use cross_db.Trans.Seen.{Marked}
use cross_db.Trans.Commit.{Ended, commit_lem, rollback_lem}
use cross_db.Wal.{try_all}
use cross_db.Conn.{Changes, tbl_end, db_commit, db_rollback}

module _ {o : IdxOps} (f : Table o → TblTrans → Option (Table o × TblTrans)) where
  -- The table `tid` was ended by `f`.
  record EndedBy (c c' : Changes o) (tid : ℕ) : Type 0 where
    lists : TblTrans
    after : TblTrans
    before_eq : c.trans.tbl_trans tid ≡ some lists
    ran : f (c.tables tid) lists ≡ some (c'.tables tid, after)
    after_eq : c'.trans.tbl_trans tid ≡ some after

  record Untouched (c c' : Changes o) (tid : ℕ) : Type 0 where
    same_table : c'.tables tid ≡ c.tables tid
    same_lists : c'.trans.tbl_trans tid ≡ c.trans.tbl_trans tid

  -- `f` runs on the table with its lists.
  abbrev Runs : Changes o → ℕ → Type 0
  Runs c tid =
      (w : TblTrans) × (r : Table o × TblTrans) × (c.trans.tbl_trans tid ≡ some w)
      × (f (c.tables tid) w ≡ some r)

  -- The changes with the table `t` ended.
  abbrev one : Changes o → ℕ → Table o × TblTrans → Changes o
  one c t r = record {
    tables = update c.tables t r.0;
    trans = record c.trans { tbl_trans = update c.trans.tbl_trans t (some r.1) };
  }

  still-Runs :
      (c : Changes o) (t : ℕ) (r : Table o × TblTrans) (ts : List ℕ)
      → NotIn t ts
      → All (Runs c) ts
      → All (Runs (one c t r)) ts
  still-Runs c t r [] n h = tt
  still-Runs c t r (x ∷ xs) n h =
      let (w, q, has, runs) = h.0 in
      let other : x ≢ t = λ e. n.0 (sym e) in
      (
        (
          w,
          q,
          update-other c.trans.tbl_trans t x (some r.1) other ∙ has,
          ap (λ (y : Table o). f y w) (update-other c.tables t x r.0 other) ∙ runs,
        ),
        still-Runs c t r xs n.1 h.1,
      )

  was_ended :
      (c c' : Changes o) (t : ℕ) (r : Table o × TblTrans) (ts : List ℕ)
      → NotIn t ts
      → All (EndedBy (one c t r) c') ts
      → All (EndedBy c c') ts
  was_ended c c' t r [] n h = tt
  was_ended c c' t r (x ∷ xs) n h =
      let e = h.0 in
      let other : x ≢ t = λ e. n.0 (sym e) in
      (
        record {
          lists = e.lists;
          after = e.after;
          before_eq = sym (update-other c.trans.tbl_trans t x (some r.1) other) ∙ e.before_eq;
          ran =
              ap (λ (y : Table o). f y e.lists) (sym (update-other c.tables t x r.0 other)) ∙ e.ran;
          after_eq = e.after_eq;
        },
        was_ended c c' t r xs n.1 h.1,
      )

  all_ended :
      (c : Changes o) (tids : List ℕ)
      → Distinct tids
      → All (Runs c) tids
      → (c' : Changes o) × (try_all (tbl_end f) c tids ≡ some c')
        × All (EndedBy c c') tids
        × ((tid : ℕ) → NotIn tid tids → Untouched c c' tid)
  unfolding try_all tbl_end Option.bind
  all_ended c [] d h = (c, refl, tt, λ tid n. record { same_table = refl; same_lists = refl })
  all_ended c (t ∷ ts) d h =
      let (w, r, has, runs) = h.0 in
      let c1 : Changes o = record {
        tables = update c.tables t r.0;
        trans = record c.trans { tbl_trans = update c.trans.tbl_trans t (some r.1) };
      } in
      let first : tbl_end f c t ≡ some c1 = rw (tbl_end, has, runs) refl in
      let (c', eq, ended, untouched) = all_ended c1 ts d.1 (still-Runs c t r ts d.0 h.1) in
      let kept = untouched t d.0 in
      (
        c',
        rw first eq,
        (
          record {
            lists = w;
            after = r.1;
            before_eq = has;
            ran =
                runs
                ∙ ap (λ (x : Table o). some (x, r.1))
                    (sym (kept.same_table ∙ update-same c.tables t r.0));
            after_eq = kept.same_lists ∙ update-same c.trans.tbl_trans t (some r.1);
          },
          was_ended c c' t r ts d.0 ended,
        ),
        λ tid n.
            let u = untouched tid n.1 in
            record {
              same_table = u.same_table ∙ update-other c.tables t tid r.0 n.0;
              same_lists = u.same_lists ∙ update-other c.trans.tbl_trans t tid (some r.1) n.0;
            },
      )

-- The tables of the transaction, in the order of the calls.
abbrev pub listed : {o : IdxOps} → Changes o → List ℕ
listed c = Leaf.iterate c.trans.tbl_rows 0

-- The transaction has lists of the table, which are marked.
abbrev pub Ready : {o : IdxOps} → Changes o → ℕ → Type 0
Ready c tid = (w : TblTrans) × (c.trans.tbl_trans tid ≡ some w) × Marked (c.tables tid) w

-- Those without a transaction see of the rows of the table `t` what `view` tells.
abbrev pub Shows : {o : IdxOps} → Table o → ℕ → (ℕ → Option Bool) → Type 0
Shows t tid view = (y : ℕ) → y < 2 ^ 31 → row_valid t none tid y ≡ view y

some_or {ℓ} : {A : Type ℓ} → A → Option A → A
some_or d none = d
some_or d (some a) = a

-- An end `f` of the transaction of a table, after which those without one see `view`.
module _ {o : IdxOps} (f : Table o → TblTrans → Option (Table o × TblTrans))
    (view : Changes o → ℕ → ℕ → Option Bool)
    (law : (c : Changes o) (t : ℕ) (w : TblTrans)
      → c.trans.tbl_trans t ≡ some w
      → Marked (c.tables t) w
      → Ended c.trans t (view c t) (f (c.tables t) w))
    (c : Changes o) where
  Ready-Runs : (ts : List ℕ) → All (Ready c) ts → All (Runs f c) ts
  Ready-Runs [] h = tt
  Ready-Runs (t ∷ ts) h =
      let (w, has, m) = h.0 in
      let e = law c t w has m in ((w, (e.table, e.lists), has, e.runs), Ready-Runs ts h.1)

  ended-Shows :
      (c' : Changes o) (ts : List ℕ)
      → All (Ready c) ts
      → All (EndedBy f c c') ts
      → All (λ tid. Shows (c'.tables tid) tid (view c tid)) ts
  unfolding some_or
  ended-Shows c' [] h k = tt
  ended-Shows c' (t ∷ ts) h k =
      let (w, has, m) = h.0 in
      let by = k.0 in
      let e = law c t w has m in
      let same_lists : by.lists ≡ w = ap (some_or w) (sym by.before_eq ∙ has) in
      let same : c'.tables t ≡ e.table =
        ap (λ (r : Option (Table o × TblTrans)). (some_or (e.table, e.lists) r).0)
          (sym by.ran ∙ ap (f (c.tables t)) same_lists ∙ e.runs) in
      (
        λ y small. ap (λ (x : Table o). row_valid x none t y) same ∙ e.others y small,
        ended-Shows c' ts h.1 k.1,
      )

  all_shown :
      All (Ready c) (listed c)
      → (c' : Changes o) × (try_all (tbl_end f) c (listed c) ≡ some c')
        × All (λ tid. Shows (c'.tables tid) tid (view c tid)) (listed c)
        × ((tid : ℕ) → NotIn tid (listed c) → c'.tables tid ≡ c.tables tid)
  all_shown h =
      let (c', eq, ended, untouched) =
        all_ended f c (listed c) (iterate-Distinct c.trans.tbl_rows 0) (Ready-Runs (listed c) h) in
      (c', eq, ended-Shows c' (listed c) h ended, λ tid n. (untouched tid n).same_table)

-- `xdb_trans_db_commit`, where each table listed has lists that are marked: no NULL is read; of each
-- table listed, those without a transaction then see of the rows below 2 ^ 31 what the connection saw
-- before, and the other tables are as they were.
pub db_commit_lem :
    {o : IdxOps} (c : Changes o)
    → All (Ready c) (listed c)
    → (c' : Changes o) × (db_commit c ≡ some c')
      × All
          (λ tid. Shows (c'.tables tid) tid (row_valid (c.tables tid) (some c.trans) tid))
          (listed c)
      × ((tid : ℕ) → NotIn tid (listed c) → c'.tables tid ≡ c.tables tid)
unfolding db_commit
db_commit_lem c h =
    all_shown tbl_commit (λ x tid. row_valid (x.tables tid) (some x.trans) tid)
      (λ x t w has m. commit_lem (x.tables t) x.trans t w has m) c h

-- `xdb_trans_db_rollback`, where each table listed has lists that are marked: no NULL is read; of each
-- table listed, those without a transaction see of the rows below 2 ^ 31 what they saw before, and the
-- other tables are as they were.
pub db_rollback_lem :
    {o : IdxOps} (c : Changes o)
    → All (Ready c) (listed c)
    → (c' : Changes o) × (db_rollback c ≡ some c')
      × All (λ tid. Shows (c'.tables tid) tid (row_valid (c.tables tid) none tid)) (listed c)
      × ((tid : ℕ) → NotIn tid (listed c) → c'.tables tid ≡ c.tables tid)
unfolding db_rollback
db_rollback_lem c h =
    all_shown tbl_rollback (λ x tid. row_valid (x.tables tid) none tid)
      (λ x t w has m. rollback_lem (x.tables t) x.trans t w has m) c h
