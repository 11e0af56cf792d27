-- ===== src/Wal/Rows.antt =====
-- The records that a transaction writes: `xdb_trans_newrow_wal` and `xdb_trans_delrow_wal` put them one
-- behind the other, from `commit_size` on.
use mathlib.Core.Option
use cross_db.Base.{
  ℕ, ◌+◌, ◌^◌, ◌<◌, ◌≤◌, ◌≡◌, refl, sym, ap, ◌∙◌, Bool, true, arith, some, List, [], ◌∷◌, ◌++◌,
  length, subst, le→leb,
}
use cross_db.Wal.{Walm, Entry, Remap, put, expand, log_row, entry_bytes}
use cross_db.Wal.Bytes.{
  Mem, read, write, le, read-Agree, get32-Agree, Agree, write-append, get32-write, read-write,
  get32-below, read-shift,
}
use cross_db.Wal.Iterate.{row_at}
use cross_db.Wal.Log.{Same, Rows, Rows-bound}

-- The fields have room in the record.
pub record EntryOk (known : ℕ → Bool) (e : Entry) : Type 0 where
  pub len_fits : e.row_len < 2 ^ 32
  pub id_fits : e.row_id < 2 ^ 32
  pub tbl_fits : e.tbl_xoid < 2 ^ 32
  pub data_fits : 12 + length e.copied ≤ e.row_len
  pub tbl_known : known e.tbl_xoid ≡ true

abbrev pub total : List Entry → ℕ
total [] = 0
total (e ∷ es) = e.row_len + total es

abbrev pub with_mem : Walm → Mem → Walm
with_mem w m = record w { wal = record w.wal { mem = m } }

-- The four parts of a record.
entry_parts :
    (m : Mem) (o : ℕ) (e : Entry)
    → write m o (entry_bytes e)
      ≡ write
          (write
            (write (write m o (le 4 e.row_len)) (o + 4) (le 4 e.row_id))
            (o + 8)
            (le 4 e.tbl_xoid))
          (o + 12)
          e.copied
unfolding entry_bytes
entry_parts m o e =
    let m1 = write m o (le 4 e.row_len) in
    let m2 = write m1 (o + 4) (le 4 e.row_id) in
    write-append m o (le 4 e.row_len) (le 4 e.row_id ++ le 4 e.tbl_xoid ++ e.copied)
    ∙ write-append m1 (o + 4) (le 4 e.row_id) (le 4 e.tbl_xoid ++ e.copied)
    ∙ ap (λ (x : ℕ). write m2 x (le 4 e.tbl_xoid ++ e.copied)) (omega arith)
    ∙ write-append m2 (o + 8) (le 4 e.tbl_xoid) e.copied
    ∙ ap (λ (x : ℕ). write (write m2 (o + 8) (le 4 e.tbl_xoid)) x e.copied) (omega arith)

-- The bytes at an address.
read-row : (m : Mem) (o k : ℕ) → read (row_at m o).row_data 0 k ≡ read m (o + 12) k
unfolding row_at
read-row m o k = read-shift _ m 0 (o + 12) k λ j u. ap m (omega arith)

-- A record that was written is read back.
pub written-Same :
    (known : ℕ → Bool) (m : Mem) (o : ℕ) (e : Entry)
    → EntryOk known e
    → Same e (row_at (write m o (entry_bytes e)) o)
unfolding row_at
written-Same known m o e k =
    let m1 = write m o (le 4 e.row_len) in
    let m2 = write m1 (o + 4) (le 4 e.row_id) in
    let m3 = write m2 (o + 8) (le 4 e.tbl_xoid) in
    let m4 = write m3 (o + 12) e.copied in
    subst (λ (x : Mem). Same e (row_at x o)) (sym (entry_parts m o e))
      (record {
        same_len =
            get32-below m3 o (o + 12) e.copied (omega arith)
            ∙ get32-below m2 o (o + 8) (le 4 e.tbl_xoid) (omega arith)
            ∙ get32-below m1 o (o + 4) (le 4 e.row_id) (omega arith)
            ∙ get32-write m o e.row_len k.len_fits;
        same_id =
            get32-below m3 (o + 4) (o + 12) e.copied (omega arith)
            ∙ get32-below m2 (o + 4) (o + 8) (le 4 e.tbl_xoid) (omega arith)
            ∙ get32-write m1 (o + 4) e.row_id k.id_fits;
        same_tbl =
            get32-below m3 (o + 8) (o + 12) e.copied (omega arith)
            ∙ get32-write m2 (o + 8) e.tbl_xoid k.tbl_fits;
        same_data = read-row m4 o (length e.copied) ∙ read-write m3 (o + 12) e.copied;
      })

-- A record is not changed by writes behind it.
pub Same-Agree :
    (m m' : Mem) (o : ℕ) (e : Entry)
    → 12 + length e.copied ≤ e.row_len
    → Agree m m' o (o + e.row_len)
    → Same e (row_at m o)
    → Same e (row_at m' o)
unfolding row_at
Same-Agree m m' o e d h s = record {
  same_len = get32-Agree m m' o (λ j u v. h j u (omega arith)) ∙ s.same_len;
  same_id = get32-Agree m m' (o + 4) (λ j u v. h j (omega arith) (omega arith)) ∙ s.same_id;
  same_tbl = get32-Agree m m' (o + 8) (λ j u v. h j (omega arith) (omega arith)) ∙ s.same_tbl;
  same_data =
      read-Agree _ _ 0 (length e.copied) (λ j u v. h (o + 12 + j) (omega arith) (omega arith))
      ∙ s.same_data;
}

pub Rows-Agree :
    (known : ℕ → Bool) (m m' : Mem) (end o : ℕ) (es : List Entry)
    → Agree m m' o end
    → Rows known m end o es
    → Rows known m' end o es
Rows-Agree known m m' end o [] h r = r
Rows-Agree known m m' end o (e ∷ es) h r =
    let bound = Rows-bound known m end (o + e.row_len) es r.3 in
    (
      Same-Agree m m' o e r.1 (λ j u v. h j u (omega (arith, bound))) r.0,
      r.1,
      r.2,
      Rows-Agree known m m' end (o + e.row_len) es (λ j u v. h j (omega arith) v) r.3,
    )

-- The log behind `commit_size` when the entries are written: from `len` on, up to `len'`.
pub record Written (known : ℕ → Bool) (w : Walm) (len : ℕ) (es : List Entry) (m : Mem)
    : Type 0 where
  pub kept : Agree w.wal.mem m 0 (w.wal.commit_size + len)
  pub rows : Rows known m (w.wal.commit_size + len + total es) (w.wal.commit_size + len) es

-- There is room for the entries and the end of the commit.
pub record Room (w : Walm) (size : ℕ) : Type 0 where
  pub in_file : w.wal.commit_size + size + 40 ≤ w.wal.wal_size
  pub in_map : w.wal.wal_size ≤ w.mapped
  pub in_word : w.wal.wal_size < 2 ^ 64

pub put-fits :
    (w : Walm) (o : ℕ) (bs : List ℕ)
    → o + length bs ≤ w.mapped
    → put w o bs ≡ some (with_mem w (write w.wal.mem o bs))
unfolding put
put-fits w o bs h = rw (le→leb _ _ h) refl

expand-fits :
    (remap : Remap) (w : Walm) (size : ℕ)
    → w.wal.commit_size + size + 32 ≤ w.wal.wal_size
    → expand remap w size ≡ some w
unfolding expand
expand-fits remap w size h = ground arith

pub length-entry : (e : Entry) → length (entry_bytes e) ≡ 12 + length e.copied
unfolding entry_bytes
length-entry e = omega arith

pub log_row-fits :
    (known : ℕ → Bool) (remap : Remap) (w : Walm) (len : ℕ) (e : Entry)
    → EntryOk known e
    → Room w (len + e.row_len)
    → log_row remap (w, len) e
      ≡ some
          (with_mem w (write w.wal.mem (w.wal.commit_size + len) (entry_bytes e)), len + e.row_len)
unfolding log_row Option.bind
log_row-fits known remap w len e k r =
    let fits =
      put-fits w (w.wal.commit_size + len) (entry_bytes e)
        (omega (arith, length-entry e, k.data_fits, r.in_file, r.in_map)) in
    rw (expand-fits remap w e.row_len (omega (arith, r.in_file)), fits) refl
