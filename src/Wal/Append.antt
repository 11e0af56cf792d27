-- ===== src/Wal/Append.antt =====
-- The records of a whole transaction: `xdb_trans_tbl_wal` for each table, and `xdb_trans_db_wal` up to
-- the commit's header.
use mathlib.Core.Option
use cross_db.Base.{
  ℕ, ◌+◌, ◌≡◌, refl, sym, ap, ◌∙◌, Bool, arith, if◌then◌else◌, Option, none, some, List, [], ◌∷◌,
  ◌++◌, map, All, subst, inl, inr, Option-cases, Bool-cases,
}
use cross_db.Bmp.Leaf
use cross_db.Bmp.Root
use cross_db.Trans.{TblTrans, DbTrans}
use cross_db.Wal.{
  Walm, Entry, LogTable, Remap, log_row, entry_bytes, try_all, new_entry, del_entry, tbl_wal,
  tbls_wal,
}
use cross_db.Wal.Bytes.{Mem, write, Agree-trans, write-Agree}
use cross_db.Wal.Log.{Rows}
use cross_db.Wal.Rows.{
  EntryOk, total, with_mem, Written, Room, Same-Agree, log_row-fits, written-Same,
}

-- One entry and then the others.
Written-cons :
    (known : ℕ → Bool) (w : Walm) (len : ℕ) (e : Entry) (es : List Entry) (m : Mem)
    → EntryOk known e
    → Written known
        (with_mem w (write w.wal.mem (w.wal.commit_size + len) (entry_bytes e)))
        (len + e.row_len)
        es
        m
    → Written known w len (e ∷ es) m
Written-cons known w len e es m k h =
    let o = w.wal.commit_size + len in
    let m1 = write w.wal.mem o (entry_bytes e) in
    record {
      kept =
          Agree-trans w.wal.mem m1 m 0 o
            (write-Agree w.wal.mem o (entry_bytes e) 0 o (inl (omega arith)))
            (λ j u v. h.kept j u (omega arith));
      rows = (
        Same-Agree m1 m o e k.data_fits (λ j u v. h.kept j (omega arith) (omega arith))
            (written-Same known w.wal.mem o e k),
        k.data_fits,
        k.tbl_known,
        subst (λ (x : ℕ). Rows known m x (o + e.row_len) es) (omega arith)
            (subst (λ (x : ℕ). Rows known m (x + total es) x es) (omega arith) h.rows),
      );
    }

-- The entries written in order, where there is room.
pub log_rows :
    (known : ℕ → Bool) (remap : Remap) (w : Walm) (len : ℕ) (es : List Entry)
    → All (EntryOk known) es
    → Room w (len + total es)
    → (m : Mem) × (try_all (log_row remap) (w, len) es ≡ some (with_mem w m, len + total es))
      × Written known w len es m
unfolding try_all Option.bind
log_rows known remap w len [] k r = (
  w.wal.mem,
  ap (λ (x : ℕ). some (w, x)) (omega arith),
  record { kept = λ j u v. refl; rows = omega arith },
)
log_rows known remap w len (e ∷ es) k r =
    let w' = with_mem w (write w.wal.mem (w.wal.commit_size + len) (entry_bytes e)) in
    let (m, eq, h) =
      log_rows known remap w' (len + e.row_len) es k.1
        (record { in_file = omega (arith, r.in_file); in_map = r.in_map; in_word = r.in_word }) in
    let one =
      log_row-fits known remap w len e k.0
        (record { in_file = omega (arith, r.in_file); in_map = r.in_map; in_word = r.in_word }) in
    (
      m,
      rw one (eq ∙ ap (λ (x : ℕ). some (with_mem w m, x)) (omega arith)),
      Written-cons known w len e es m k.0 h,
    )

-- The entries of one table: the deleted rows, then the new ones.
unfoldable pub tbl_entries : LogTable → TblTrans → Option (List Entry)
unfolding Option.bind
tbl_entries t tr =
    if t.in_memory
    then some []
    else Option.bind (Root.iterate tr.del_rows) λ dels.
      Option.map (λ news. map (del_entry t) dels ++ map (new_entry t) news)
        (Root.iterate tr.new_rows)

-- Those of the tables with the ids.
unfoldable pub tbls_entries : (ℕ → LogTable) → DbTrans → List ℕ → Option (List Entry)
unfolding Option.bind
tbls_entries tables d [] = some []
tbls_entries tables d (tid ∷ tids) = Option.bind (d.tbl_trans tid) λ tr.
    Option.bind (tbl_entries (tables tid) tr)
      λ es. Option.map (λ fs. es ++ fs) (tbls_entries tables d tids)

try_all-append {ℓ κ} :
    {A : Type ℓ} {B : Type κ} (f : A → B → Option A) (a : A) (xs ys : List B)
    → try_all f a (xs ++ ys) ≡ Option.bind (try_all f a xs) (λ a'. try_all f a' ys)
unfolding try_all Option.bind
try_all-append f a [] ys = refl
try_all-append f a (x ∷ xs) ys = elim (Option-cases (f a x)) [
  | inl e ↦ rw e refl
  | inr (a', e) ↦ rw e (try_all-append f a' xs ys)
]

try_all-map {ℓ κ ι} :
    {A : Type ℓ} {B : Type κ} {C : Type ι} (f : A → C → Option A) (g : B → C) (a : A) (xs : List B)
    → try_all f a (map g xs) ≡ try_all (λ a x. f a (g x)) a xs
unfolding try_all Option.bind
try_all-map f g a [] = refl
try_all-map f g a (x ∷ xs) = elim (Option-cases (f a (g x))) [
  | inl e ↦ rw e refl
  | inr (a', e) ↦ rw e (try_all-map f g a' xs)
]

bind-none {ℓ κ} :
    {A : Type ℓ} {B : Type κ} (o : Option A) → Option.bind {B = B} o (λ a. none) ≡ none
unfolding Option.bind
bind-none none = refl
bind-none (some a) = refl

bind-ext {ℓ κ} :
    {A : Type ℓ} {B : Type κ} (o : Option A) (f g : A → Option B)
    → ((a : A) → f a ≡ g a)
    → Option.bind o f ≡ Option.bind o g
unfolding Option.bind
bind-ext none f g h = refl
bind-ext (some a) f g h = h a

two_parts :
    (remap : Remap) (t : LogTable) (st : Walm × ℕ) (dels news : List ℕ)
    → try_all (log_row remap) st (map (del_entry t) dels ++ map (new_entry t) news)
      ≡ Option.bind
          (try_all (λ s rid. log_row remap s (del_entry t rid)) st dels)
          (λ st'. try_all (λ s rid. log_row remap s (new_entry t rid)) st' news)
unfolding Option.bind
two_parts remap t st dels news =
    try_all-append (log_row remap) st (map (del_entry t) dels) (map (new_entry t) news)
    ∙ rw try_all-map
        (elim (Option-cases (try_all (λ s rid. log_row remap s (del_entry t rid)) st dels)) [
          | inl e ↦ rw e refl
          | inr (st', e) ↦ rw e (try_all-map (log_row remap) (new_entry t) st' news)
        ])

-- `xdb_trans_tbl_wal` writes the entries of the table.
tbl_wal_lem :
    (remap : Remap) (t : LogTable) (tr : TblTrans) (st : Walm × ℕ)
    → tbl_wal remap t tr st ≡ Option.bind (tbl_entries t tr) (try_all (log_row remap) st)
unfolding tbl_wal tbl_entries Option.bind try_all
tbl_wal_lem remap t tr st = elim (Bool-cases t.in_memory) [
  | inl e ↦ simp e refl
  | inr e ↦ simp e (elim (Option-cases (Root.iterate tr.del_rows)) [
    | inl d ↦ rw d refl
    | inr (dels, d) ↦ rw d (elim (Option-cases (Root.iterate tr.new_rows)) [
      | inl n ↦ rw n (bind-none (try_all (λ s rid. log_row remap s (del_entry t rid)) st dels))
      | inr (news, n) ↦ rw n (sym (two_parts remap t st dels news))
    ])
  ])
]

-- The tables one after the other.
step : Remap → (ℕ → LogTable) → DbTrans → Walm × ℕ → ℕ → Option (Walm × ℕ)
step remap tables d st tid = Option.bind (d.tbl_trans tid) (λ tr. tbl_wal remap (tables tid) tr st)

tbls_step :
    (remap : Remap) (tables : ℕ → LogTable) (d : DbTrans) (st : Walm × ℕ) (tids : List ℕ)
    → try_all (step remap tables d) st tids
      ≡ Option.bind (tbls_entries tables d tids) (try_all (log_row remap) st)
unfolding step tbls_entries Option.bind try_all
tbls_step remap tables d st [] = refl
tbls_step remap tables d st (tid ∷ tids) = elim (Option-cases (d.tbl_trans tid)) [
  | inl e ↦ rw e refl
  | inr (tr, e) ↦
      rw (e, tbl_wal_lem)
        (elim (Option-cases (tbl_entries (tables tid) tr)) [
          | inl k ↦ rw k refl
          | inr (es, k) ↦ rw k (elim (Option-cases (tbls_entries tables d tids)) [
            | inl n ↦ rw n (
                bind-ext (try_all (log_row remap) st es) _ (λ st'. none)
                  (λ st'. tbls_step remap tables d st' tids ∙ rw n refl)
                ∙ bind-none (try_all (log_row remap) st es))
            | inr (fs, n) ↦ rw n (
                bind-ext (try_all (log_row remap) st es) _ (λ st'. try_all (log_row remap) st' fs)
                  (λ st'. tbls_step remap tables d st' tids ∙ rw n refl)
                ∙ sym (try_all-append (log_row remap) st es fs))
          ])
        ])
]

-- What `xdb_trans_db_wal` writes before the header: the entries of the tables of the transaction.
unfoldable pub db_entries : (ℕ → LogTable) → DbTrans → Option (List Entry)
db_entries tables d = tbls_entries tables d (Leaf.iterate d.tbl_rows 0)

pub tbls_wal_lem :
    (remap : Remap) (tables : ℕ → LogTable) (d : DbTrans) (w : Walm) (es : List Entry)
    → db_entries tables d ≡ some es
    → tbls_wal remap tables d w ≡ try_all (log_row remap) (w, 0) es
unfolding tbls_wal db_entries Option.bind step
tbls_wal_lem remap tables d w es h =
    tbls_step remap tables d (w, 0) (Leaf.iterate d.tbl_rows 0)
    ∙ ap (λ (o : Option (List Entry)). Option.bind o (try_all (log_row remap) (w, 0))) h
