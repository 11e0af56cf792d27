-- ===== src/Wal/Redo.antt =====
-- `xdb_wal_redo_row` and `xdb_wal_redo`: the records of the log are done again on the tables. Tables
-- have no variable-length fields here. The code does not test the id of a new row against the capacity: `none`
-- is also a write outside of the mapping. `row_size` and `ctl_off` are those of a table: a row's control
-- byte lies between its first four bytes and its end.
use mathlib.Core.Option
use cross_db.Base.{
  none, not, le→leb, lt→ltb, ℕ, zero, suc, ◌+◌, ◌-◌, ◌%◌, ◌^◌, ◌<◌, ◌≤◌, ◌≡◌, refl, sym, ap, ◌∙◌,
  Bool, false, ◌==◌, ltb, leb, ◌&&◌, if◌then◌else◌, arith, Option, some, List, [], ◌∷◌, ◌++◌,
  update, length, subst, Bool-cases, inl, inr, ==→eq, eq→==, if_both,
}
use cross_db.Store.{Row, row_commit}
use cross_db.Index.{IdxOps, add_row}
use cross_db.Trans.{Table, with_ctrl, remove}
use cross_db.Wal.{Walm, LogTable, Entry, new_entry}
use cross_db.Wal.Bytes.{Mem, read, unle, get32, read-Agree, get32-Agree, Agree}
use cross_db.Wal.Iterate.{WalRow, iterate}
use cross_db.Wal.Log.{Same}
use cross_db.Wal.Flush.{flush_db, Wals, flush}

-- The row that stands in `row_size` bytes.
unfoldable pub row_of : ℕ → ℕ → Mem → Row
row_of row_size ctl_off d = record {
  next = get32 d 0;
  ctrl = d ctl_off;
  payload = unle (read d 4 (ctl_off - 4) ++ read d (ctl_off + 1) (row_size - (ctl_off + 1)));
}

unfoldable pub redo_at : {o : IdxOps} → ℕ → Table o → ℕ → Mem → Option (Table o)
redo_at {o} row_size t row_id d =
    let rid = row_id % 2 ^ 31 in
    if leb (2 ^ 31) row_id
    then some (if ltb 0 rid && leb rid t.stg.maxid then remove t rid else t)
    else if not (ltb 0 rid && leb rid t.stg.cap)
    then none
    else (let row = with_ctrl row_commit (row_of row_size t.stg.ctl_off d) in
        some (record t {
          stg = record t.stg { rows = update t.stg.rows rid row };
          idx = (add_row o t.idx_order t.idx rid row).1;
        }))

-- `xdb_wal_redo_row`
unfoldable pub redo_row : {o : IdxOps} → ℕ → Table o → WalRow → Option (Table o)
unfolding redo_at
redo_row row_size t r = redo_at row_size t r.row_id r.row_data

-- The callback on each of the records: the table with the id of the record changes.
unfoldable pub redo_rows :
    {o : IdxOps} → (ℕ → ℕ) → (ℕ → Table o) → List WalRow → Option (ℕ → Table o)
unfolding Option.bind
redo_rows row_size ts [] = some ts
redo_rows row_size ts (r ∷ rs) =
    Option.bind (redo_row (row_size r.tbl_xoid) (ts r.tbl_xoid) r)
      λ t. redo_rows row_size (update ts r.tbl_xoid t) rs

-- A log with its `commit_id` set to what the replay returned.
abbrev pub with_id : Walm → ℕ → Walm
with_id w id = record w { wal = record w.wal { commit_id = id } }

-- `xdb_wal_redo`: the backup log first, then the active one; then both are emptied. `changed` tells
-- whether `xdb_flush_db` finds the database changed.
unfoldable pub redo :
    {o : IdxOps}
    → (List ℕ → ℕ)
    → (ℕ → Bool)
    → (ℕ → ℕ)
    → Bool
    → Wals
    → (ℕ → Table o)
    → Option (Wals × (ℕ → Table o))
unfolding Option.bind
redo hash known row_size changed ws ts = Option.bind (iterate hash known ws.backup.wal) λ b.
    Option.bind (redo_rows row_size ts b.0) λ ts1.
      Option.bind (iterate hash known ws.active.wal) λ a.
        Option.bind (redo_rows row_size ts1 a.0) λ ts2.
          let vs : Wals = record {
            active = with_id ws.active a.1;
            backup = with_id ws.backup b.1;
          } in
          Option.bind (if changed then flush_db vs else some vs) λ us.
            Option.bind (flush us.active)
              λ x. Option.map (λ y. (record { active = x; backup = y }, ts2)) (flush us.backup)

abbrev first_or : ℕ → List ℕ → ℕ
first_or d [] = d
first_or d (x ∷ xs) = x

abbrev rest_of : List ℕ → List ℕ
rest_of [] = []
rest_of (x ∷ xs) = xs

-- The bytes of a read.
read-bytes : (m m' : Mem) (o n j : ℕ) → read m o n ≡ read m' o n → o ≤ j → j < o + n → m j ≡ m' j
unfolding read
read-bytes m m' o zero j h u v = absurd (omega (arith, u, v))
read-bytes m m' o (suc n) j h u v = elim (Bool-cases (j == o)) [
  | inl e ↦ subst (λ (x : ℕ). m x ≡ m' x) (sym (==→eq j o e)) (ap (first_or 0) h)
  | inr e ↦ read-bytes m m' (o + 1) n j (ap rest_of h) (ground (arith, e)) (omega arith)
]

-- The row is in its bytes.
row_of-Agree :
    (row_size ctl_off : ℕ) (d d' : Mem)
    → 4 ≤ ctl_off
    → ctl_off < row_size
    → Agree d d' 0 row_size
    → row_of row_size ctl_off d' ≡ row_of row_size ctl_off d
unfolding row_of
row_of-Agree row_size ctl_off d d' lo hi h =
    rw
      (
        get32-Agree d d' 0 (λ j u v. h j u (omega arith)),
        h ctl_off (omega arith) hi,
        read-Agree d d' 4 (ctl_off - 4) (λ j u v. h j (omega arith) (omega arith)),
        read-Agree d d' (ctl_off + 1) (row_size - (ctl_off + 1))
            (λ j u v. h j (omega arith) (omega arith)),
      )
      refl

length-read : (m : Mem) (o k : ℕ) → length (read m o k) ≡ k
unfolding read
length-read m o zero = refl
length-read m o (suc k) = omega (arith, length-read m (o + 1) k)

new_entry-id : (s : LogTable) (rid : ℕ) → (new_entry s rid).row_id ≡ rid
unfolding new_entry
new_entry-id s rid = if_both (λ (e : Entry). e.row_id ≡ rid) (s.vfld_count == 0) _ _ refl refl

new_entry-copied :
    (s : LogTable) (rid : ℕ)
    → s.vfld_count ≡ 0
    → (new_entry s rid).copied ≡ read (s.row rid) 0 s.row_size
unfolding new_entry
new_entry-copied s rid e = rw (eq→== s.vfld_count 0 e) refl

-- The bytes of a logged row, in its record.
logged_bytes :
    (s : LogTable) (rid : ℕ) (r : WalRow)
    → s.vfld_count ≡ 0
    → Same (new_entry s rid) r
    → Agree (s.row rid) r.row_data 0 s.row_size
logged_bytes s rid r e same j u v =
    let copied = new_entry-copied s rid e in
    let n : length (new_entry s rid).copied ≡ s.row_size =
      ap length copied ∙ length-read (s.row rid) 0 s.row_size in
    read-bytes r.row_data (s.row rid) 0 s.row_size j
      (ap (read r.row_data 0) (sym n) ∙ same.same_data ∙ copied) u (omega arith)

redo_at-new :
    {o : IdxOps} (row_size : ℕ) (t : Table o) (rid : ℕ) (row : Row) (d : Mem)
    → 0 < rid
    → rid ≤ t.stg.cap
    → rid < 2 ^ 31
    → with_ctrl row_commit (row_of row_size t.stg.ctl_off d) ≡ row
    → redo_at row_size t rid d
      ≡ some (record t {
        stg = record t.stg { rows = update t.stg.rows rid row };
        idx = (add_row o t.idx_order t.idx rid row).1;
      })
unfolding redo_at
redo_at-new {o} row_size t rid row d pos fits small e =
    let no : leb (2 ^ 31) rid ≡ false = ground arith in
    let same : rid % 2 ^ 31 ≡ rid = omega arith in
    rw (no, same, lt→ltb 0 rid pos, le→leb rid t.stg.cap fits)
      (ap
        (λ (x : Row). some (record t {
          stg = record t.stg { rows = update t.stg.rows rid x };
          idx = (add_row o t.idx_order t.idx rid x).1;
        }))
        e)

module _ {o : IdxOps} (t : Table o) (s : LogTable) (rid : ℕ) (r : WalRow) where
  -- The row as it was when it was logged, committed.
  abbrev pub logged_row : Row
  logged_row = with_ctrl row_commit (row_of s.row_size t.stg.ctl_off (s.row rid))

  -- The replay of a new row of a table without variable-length fields, whose id is from 1 up to the capacity
  -- and below 2 ^ 31 and whose control byte lies behind its first four bytes, puts the row that was logged
  -- in its block, as committed, and in the indexes, and changes nothing else.
  pub redo-new_entry :
      s.vfld_count ≡ 0
      → 0 < rid
      → rid ≤ t.stg.cap
      → rid < 2 ^ 31
      → 4 ≤ t.stg.ctl_off
      → t.stg.ctl_off < s.row_size
      → Same (new_entry s rid) r
      → redo_row s.row_size t r
        ≡ some (record t {
          stg = record t.stg { rows = update t.stg.rows rid logged_row };
          idx = (add_row o t.idx_order t.idx rid logged_row).1;
        })
  unfolding redo_row
  redo-new_entry no_vfld pos fits small lo hi same =
      ap (λ (x : ℕ). redo_at s.row_size t x r.row_data) (same.same_id ∙ new_entry-id s rid)
      ∙ redo_at-new s.row_size t rid logged_row r.row_data pos fits small (
          ap (with_ctrl row_commit) (
            row_of-Agree s.row_size t.stg.ctl_off (s.row rid) r.row_data lo hi
              (logged_bytes s rid r no_vfld same)))
