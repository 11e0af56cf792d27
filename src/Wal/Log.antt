-- ===== src/Wal/Log.antt =====
-- What the log holds, as a list of commits, and that `xdb_wal_iterate` calls back with their records.
use mathlib.Core.Option
use mathlib.Core.Bool.{false≢true}
use cross_db.Base.{
  ℕ, zero, suc, ◌+◌, ◌-◌, ◌*◌, ◌%◌, ◌^◌, ◌<◌, ◌≤◌, ◌≡◌, refl, sym, ap, ◌∙◌, Bool, true, false, ltb,
  arith, Option, some, List, [], ◌∷◌, ◌++◌, length, lt→ltb, ltb→lt, Bool-cases, inl, inr,
}
use cross_db.Wal.{Wal, Entry}
use cross_db.Wal.Bytes.{Mem, read, get64}
use cross_db.Wal.Iterate.{WalRow, row_at, rows_of, is_whole, commits_of, iterate}

-- The record `r` of the log is that of the entry `e`.
pub record Same (e : Entry) (r : WalRow) : Type 0 where
  pub same_len : r.row_len ≡ e.row_len
  pub same_id : r.row_id ≡ e.row_id
  pub same_tbl : r.tbl_xoid ≡ e.tbl_xoid
  pub same_data : read r.row_data 0 (length e.copied) ≡ e.copied

-- Each record is that of its entry, in order.
abbrev pub AllSame : List Entry → List WalRow → Type 0
AllSame [] [] = Unit
AllSame [] (r ∷ rs) = ⊥
AllSame (e ∷ es) [] = ⊥
AllSame (e ∷ es) (r ∷ rs) = Same e r × AllSame es rs

pub AllSame-append :
    (es fs : List Entry) (rs qs : List WalRow)
    → AllSame es rs
    → AllSame fs qs
    → AllSame (es ++ fs) (rs ++ qs)
AllSame-append [] fs [] qs h k = k
AllSame-append (e ∷ es) fs (r ∷ rs) qs h k = (h.0, AllSame-append es fs rs qs h.1 k)
AllSame-append [] fs (r ∷ rs) qs h k = absurd h
AllSame-append (e ∷ es) fs [] qs h k = absurd h

-- The entries stand one behind the other from `o` to `end`, of tables that are known.
abbrev pub Rows : (ℕ → Bool) → Mem → ℕ → ℕ → List Entry → Type 0
Rows known m end o [] = o ≡ end
Rows known m end o (e ∷ es) =
    Same e (row_at m o)
    × (12 + length e.copied ≤ e.row_len)
    × (known e.tbl_xoid ≡ true)
    × Rows known m end (o + e.row_len) es

-- A commit: its id and its entries.
pub record Commit : Type 0 where
  pub id : ℕ
  pub entries : List Entry

abbrev pub entries_of : List Commit → List Entry
entries_of [] = []
entries_of (c ∷ cs) = c.entries ++ entries_of cs

abbrev pub last_id : ℕ → List Commit → ℕ
last_id d [] = d
last_id d (c ∷ cs) = last_id c.id cs

abbrev pub NonEmpty : List Entry → Type 0
NonEmpty [] = ⊥
NonEmpty (e ∷ es) = Unit

-- The commits stand in the log from `at` on, each whole; where they end, `P` holds.
abbrev pub Commits : (List ℕ → ℕ) → (ℕ → Bool) → (ℕ → Type 0) → Wal → ℕ → List Commit → Type 0
Commits hash known P w at [] = P at
Commits hash known P w at (c ∷ cs) =
    (is_whole hash w at ≡ true)
    × (get64 w.mem (at + 8) ≡ c.id)
    × NonEmpty c.entries
    × (at + 32 ≤ at + get64 w.mem at)
    × (at + 32 + get64 w.mem at < 2 ^ 64)
    × Rows known w.mem (at + get64 w.mem at) (at + 32) c.entries
    × Commits hash known P w (at + get64 w.mem at) cs

-- The whole log, for a replay: behind the commits stands one that is not whole.
abbrev pub Logged : (List ℕ → ℕ) → (ℕ → Bool) → Wal → List Commit → Type 0
Logged hash known w = Commits hash known (λ at. is_whole hash w at ≡ false) w 152

pub Rows-bound :
    (known : ℕ → Bool) (m : Mem) (end o : ℕ) (es : List Entry)
    → Rows known m end o es
    → o + 12 * length es ≤ end
Rows-bound known m end o [] h = omega (arith, h)
Rows-bound known m end o (e ∷ es) h =
    omega (arith, h.1, Rows-bound known m end (o + e.row_len) es h.3)

-- One turn of the inner loop.
rows_of-step :
    (known : ℕ → Bool) (m : Mem) (n end o : ℕ) (e : Entry) (b : Bool)
    → Same e (row_at m o)
    → known e.tbl_xoid ≡ true
    → ltb (o + e.row_len) end ≡ b
    → rows_of known m (suc n) end o ≡ (elim b [
      | true ↦ Option.map (λ rs. row_at m o ∷ rs) (rows_of known m n end (o + e.row_len))
      | false ↦ some (row_at m o ∷ [])
    ])
unfolding rows_of
rows_of-step known m n end o e b s k h =
    let r = row_at m o in
    let known_r : known r.tbl_xoid ≡ true = ap known s.same_tbl ∙ k in
    let ends : ltb (o + r.row_len) end ≡ b = ap (λ (l : ℕ). ltb (o + l) end) s.same_len ∙ h in
    rw (rows_of, known_r, ends) refl
    ∙ ap
        (λ (l : ℕ). elim b as (λ _. Option (List WalRow)) [
          | true ↦ Option.map (λ rs. r ∷ rs) (rows_of known m n end (o + l))
          | false ↦ some (r ∷ [])
        ])
        s.same_len

-- The inner loop makes the calls of the entries, if it has a turn for each.
rows_of-Rows :
    (known : ℕ → Bool) (m : Mem) (n end o : ℕ) (e : Entry) (es : List Entry)
    → length es < n
    → Rows known m end o (e ∷ es)
    → (rs : List WalRow) × (rows_of known m n end o ≡ some rs) × AllSame (e ∷ es) rs
rows_of-Rows known m zero end o e es lt h = absurd (omega (arith, lt))
rows_of-Rows known m (suc n) end o e [] lt h =
    (row_at m o ∷ [], rows_of-step known m n end o e false h.0 h.2 (ground (arith, h.3)), (h.0, tt))
rows_of-Rows known m (suc n) end o e (f ∷ fs) lt h =
    let (rs, eq, s) = rows_of-Rows known m n end (o + e.row_len) f fs (omega arith) h.3 in
    let bound = Rows-bound known m end (o + e.row_len) (f ∷ fs) h.3 in
    (
      row_at m o ∷ rs,
      rows_of-step known m n end o e true h.0 h.2 (lt→ltb _ _ (omega (arith, bound)))
          ∙ ap (Option.map (λ rs. row_at m o ∷ rs)) eq,
      (h.0, s),
    )

commit-Rows :
    (known : ℕ → Bool) (m : Mem) (len at : ℕ) (es : List Entry)
    → NonEmpty es
    → Rows known m (at + len) (at + 32) es
    → (rs : List WalRow) × (rows_of known m (suc len) (at + len) (at + 32) ≡ some rs)
      × AllSame es rs
commit-Rows known m len at [] ne h = absurd ne
commit-Rows known m len at (e ∷ es) ne h =
    rows_of-Rows known m (suc len) (at + len) (at + 32) e es
      (omega (arith, Rows-bound known m (at + len) (at + 32) (e ∷ es) h)) h

whole-bound :
    (hash : List ℕ → ℕ) (w : Wal) (at : ℕ) → is_whole hash w at ≡ true → at < w.commit_size
unfolding is_whole
whole-bound hash w at h = elim (Bool-cases (ltb at w.commit_size)) [
  | inl e ↦ ltb→lt _ _ e
  | inr e ↦ absurd (let no : is_whole hash w at ≡ false = rw e refl in false≢true (sym no ∙ h))
]

-- One turn of the outer loop.
commits_of-step :
    (hash : List ℕ → ℕ) (known : ℕ → Bool) (w : Wal) (n at last id : ℕ) (rs : List WalRow)
    → is_whole hash w at ≡ true
    → rows_of known w.mem (suc (get64 w.mem at)) (at + get64 w.mem at) (at + 32) ≡ some rs
    → get64 w.mem (at + 8) ≡ id
    → at + 32 + get64 w.mem at < 2 ^ 64
    → commits_of hash known w (suc n) at last
      ≡ Option.map (λ r. (rs ++ r.0, r.1)) (commits_of hash known w n (at + get64 w.mem at) id)
unfolding commits_of Option.bind
commits_of-step hash known w n at last id rs h k e fits =
    let len = get64 w.mem at in
    let ahead : ltb ((at + 32 + len) % 2 ^ 64) 32 ≡ false = ground (arith, fits) in
    let start : (at + 32 + len) % 2 ^ 64 - 32 ≡ at + len = omega (arith, fits) in
    rw (commits_of, h, ahead, start, k) refl
    ∙ ap
        (λ (i : ℕ).
          Option.map (λ r. (rs ++ r.0, r.1)) (commits_of hash known w n (at + get64 w.mem at) i))
        e

-- The records of the commits are those of the entries, and the id given is that of the last commit.
pub commits_of-Commits :
    (hash : List ℕ → ℕ) (known : ℕ → Bool) (w : Wal) (n at last : ℕ) (cs : List Commit)
    → w.commit_size ≤ at + n
    → Commits hash known (λ at. is_whole hash w at ≡ false) w at cs
    → (rs : List WalRow) × (commits_of hash known w (suc n) at last ≡ some (rs, last_id last cs))
      × AllSame (entries_of cs) rs
unfolding commits_of
commits_of-Commits hash known w n at last [] lt h = ([], rw (commits_of, h) refl, tt)
commits_of-Commits hash known w zero at last (c ∷ cs) lt h =
    absurd (omega (arith, whole-bound hash w at h.0))
commits_of-Commits hash known w (suc n) at last (c ∷ cs) lt h =
    let len = get64 w.mem at in
    let (rs, eq, s) = commit-Rows known w.mem len at c.entries h.2 h.5 in
    let (qs, eq', s') =
      commits_of-Commits hash known w n (at + len) c.id cs (omega (arith, h.3)) h.6 in
    (
      rs ++ qs,
      commits_of-step hash known w (suc n) at last c.id rs h.0 eq h.1 h.4
          ∙ ap (Option.map (λ r. (rs ++ r.0, r.1))) eq',
      AllSame-append c.entries (entries_of cs) rs qs s s',
    )

-- On a log of whole commits, whose records are of known tables and which end below 2 ^ 64 - 32, with something
-- behind them that fails the tests of a commit (which add up sizes in 64 bits), `xdb_wal_iterate` ends, calls
-- back with the records of these commits, each in its place, and returns the id of the last one.
pub iterate-Logged :
    (hash : List ℕ → ℕ) (known : ℕ → Bool) (w : Wal) (cs : List Commit)
    → Logged hash known w cs
    → (rs : List WalRow) × (iterate hash known w ≡ some (rs, last_id w.commit_id cs))
      × AllSame (entries_of cs) rs
unfolding iterate
iterate-Logged hash known w cs h =
    commits_of-Commits hash known w w.commit_size 152 w.commit_id cs (omega arith) h
