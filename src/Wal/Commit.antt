-- ===== src/Wal/Commit.antt =====
-- A commit that `xdb_trans_db_wal` writes stands in the log behind those that were there.
use cross_db.Base.{
  ℕ, ◌+◌, ◌%◌, ◌^◌, ◌<◌, ◌≤◌, ◌≡◌, refl, ap, ◌∙◌, Bool, true, false, arith, List, [], ◌∷◌, ◌++◌,
  subst,
}
use cross_db.Wal.{Wal}
use cross_db.Wal.Bytes.{get32, get64, Agree, read-Agree, get32-Agree, get64-Agree}
use cross_db.Wal.Iterate.{is_whole, passes, sum_of}
use cross_db.Wal.Log.{Rows, Commit, Commits, NonEmpty}
use cross_db.Wal.Rows.{Rows-Agree}

-- The commits fill the log up to `commit_size`, where a length 0 stands.
abbrev pub Filled : (List ℕ → ℕ) → (ℕ → Bool) → Wal → List Commit → Type 0
Filled hash known w =
    Commits hash known (λ at. (at + 32 ≡ w.commit_size) × (get64 w.mem at ≡ 0)) w 152

pub Filled-end :
    (hash : List ℕ → ℕ) (known : ℕ → Bool) (w : Wal) (at : ℕ) (cs : List Commit)
    → Commits hash known (λ at. (at + 32 ≡ w.commit_size) × (get64 w.mem at ≡ 0)) w at cs
    → at + 32 ≤ w.commit_size
Filled-end hash known w at [] h = omega (arith, h.0)
Filled-end hash known w at (c ∷ cs) h =
    omega (arith, h.3, Filled-end hash known w (at + get64 w.mem at) cs h.6)

-- A log that ends with its first header has no commits.
pub Filled-short :
    (hash : List ℕ → ℕ) (known : ℕ → Bool) (w : Wal) (cs : List Commit)
    → Filled hash known w cs
    → w.commit_size ≤ 184
    → cs ≡ []
Filled-short hash known w [] h short = refl
Filled-short hash known w (c ∷ cs) h short =
    absurd (omega (arith, h.3, Filled-end hash known w (152 + get64 w.mem 152) cs h.6))

passes-zero : (size at sum found : ℕ) → passes size at 0 sum found ≡ false
passes-zero size at sum found = ground arith

passes-sum :
    (size at len sum : ℕ)
    → 0 < len
    → at + 32 + len ≤ size
    → at + 32 + len < 2 ^ 64
    → passes size at len sum sum ≡ true
passes-sum size at len sum h k fits = ground arith

passes-larger :
    (size size' at len sum found : ℕ)
    → size ≤ size'
    → passes size at len sum found ≡ true
    → passes size' at len sum found ≡ true
passes-larger size size' at len sum found h p = ground arith

passes-bound :
    (size at len sum found : ℕ)
    → passes size at len sum found ≡ true
    → at + 32 + len < 2 ^ 64
    → at + 32 + len ≤ size
passes-bound size at len sum found p fits = ground arith

-- Such a log can be replayed.
pub ends-Logged :
    (hash : List ℕ → ℕ) (known : ℕ → Bool) (w : Wal) (at : ℕ) (cs : List Commit)
    → Commits hash known (λ at. (at + 32 ≡ w.commit_size) × (get64 w.mem at ≡ 0)) w at cs
    → Commits hash known (λ at. is_whole hash w at ≡ false) w at cs
unfolding is_whole
ends-Logged hash known w at [] h = rw h.1 (passes-zero w.commit_size at (get32 w.mem (at + 24)) _)
ends-Logged hash known w at (c ∷ cs) h =
    (h.0, h.1, h.2, h.3, h.4, h.5, ends-Logged hash known w (at + get64 w.mem at) cs h.6)

-- The log `w` goes on to `w'` with the commit `c` of `len` bytes, its header among them.
pub record Extended (hash : List ℕ → ℕ) (known : ℕ → Bool) (w w' : Wal) (at : ℕ) (c : Commit)
    (len : ℕ) : Type 0 where
  pub ends : at + 32 ≡ w.commit_size
  pub size : w'.commit_size ≡ w.commit_size + len
  pub kept : Agree w.mem w'.mem 0 at
  pub header : get64 w'.mem at ≡ len
  pub id : get64 w'.mem (at + 8) ≡ c.id
  pub sum : get32 w'.mem (at + 24) ≡ sum_of hash w'.mem at len
  pub rows : Rows known w'.mem (at + len) (at + 32) c.entries
  pub end_mark : get64 w'.mem (at + len) ≡ 0
  pub filled : NonEmpty c.entries
  pub long : 32 ≤ len
  pub in_word : at + 32 + len < 2 ^ 64

-- The checks of a commit that was there give what they gave.
whole-kept :
    (hash : List ℕ → ℕ) (known : ℕ → Bool) (w w' : Wal) (last : ℕ) (c : Commit) (len at : ℕ)
    → Extended hash known w w' last c len
    → 32 ≤ get64 w.mem at
    → at + 32 + get64 w.mem at < 2 ^ 64
    → is_whole hash w at ≡ true
    → is_whole hash w' at ≡ true
unfolding is_whole
whole-kept hash known w w' last c len at x lo hi h =
    let n = get64 w.mem at in
    let bound =
      passes-bound w.commit_size at n (get32 w.mem (at + 24)) (sum_of hash w.mem at n) h hi in
    let at_last = x.ends in
    let e : get64 w'.mem at ≡ n =
      get64-Agree w.mem w'.mem at (λ j u v. x.kept j (omega arith) (omega (arith, bound, lo))) in
    let e' : get32 w'.mem (at + 24) ≡ get32 w.mem (at + 24) =
      get32-Agree w.mem w'.mem (at + 24)
        (λ j u v. x.kept j (omega arith) (omega (arith, bound, lo))) in
    let e'' : sum_of hash w'.mem at n ≡ sum_of hash w.mem at n =
      ap (λ bs. hash bs % 2 ^ 32)
        (read-Agree w.mem w'.mem (at + 32) _
          (λ j u v. x.kept j (omega arith) (omega (arith, bound, lo, hi)))) in
    rw (e, e', e'')
      (passes-larger w.commit_size w'.commit_size at n (get32 w.mem (at + 24))
        (sum_of hash w.mem at n) (omega (arith, x.size)) h)

pub whole-bound :
    (hash : List ℕ → ℕ) (w : Wal) (at : ℕ)
    → is_whole hash w at ≡ true
    → at + 32 + get64 w.mem at < 2 ^ 64
    → at + 32 + get64 w.mem at ≤ w.commit_size
unfolding is_whole
whole-bound hash w at h fits =
    passes-bound w.commit_size at (get64 w.mem at) (get32 w.mem (at + 24))
      (sum_of hash w.mem at (get64 w.mem at)) h fits

new-whole :
    (hash : List ℕ → ℕ) (known : ℕ → Bool) (w w' : Wal) (at : ℕ) (c : Commit) (len : ℕ)
    → Extended hash known w w' at c len
    → is_whole hash w' at ≡ true
unfolding is_whole
new-whole hash known w w' at c len x =
    rw (x.header, x.sum)
      (passes-sum w'.commit_size at len (sum_of hash w'.mem at len) (omega (arith, x.long))
        (omega (arith, x.size, x.ends)) x.in_word)

-- The new commit, behind the others.
new_commit :
    (hash : List ℕ → ℕ) (known : ℕ → Bool) (w w' : Wal) (at : ℕ) (c : Commit) (len : ℕ)
    → Extended hash known w w' at c len
    → Commits hash known (λ at. (at + 32 ≡ w'.commit_size) × (get64 w'.mem at ≡ 0)) w' at (c ∷ [])
new_commit hash known w w' at c len x = rw x.header (
  new-whole hash known w w' at c len x,
  x.id,
  x.filled,
  omega (arith, x.long),
  x.in_word,
  x.rows,
  (omega (arith, x.size, x.ends), x.end_mark),
)

pub Commits-snoc :
    (hash : List ℕ → ℕ) (known : ℕ → Bool) (w w' : Wal) (last : ℕ) (c : Commit) (len at : ℕ)
    (cs : List Commit)
    → Extended hash known w w' last c len
    → Commits hash known (λ at. (at + 32 ≡ w.commit_size) × (get64 w.mem at ≡ 0)) w at cs
    → Commits hash known
        (λ at. (at + 32 ≡ w'.commit_size) × (get64 w'.mem at ≡ 0))
        w'
        at
        (cs ++ c ∷ [])
Commits-snoc hash known w w' last c len at [] x h =
    subst
      (λ (y : ℕ).
        Commits hash known (λ z. (z + 32 ≡ w'.commit_size) × (get64 w'.mem z ≡ 0)) w' y (c ∷ []))
      (omega (arith, h.0, x.ends)) (new_commit hash known w w' last c len x)
Commits-snoc hash known w w' last c len at (d ∷ ds) x h =
    let n = get64 w.mem at in
    let bound = whole-bound hash w at h.0 h.4 in
    let at_last = x.ends in
    let e : get64 w'.mem at ≡ n =
      get64-Agree w.mem w'.mem at (λ j u v. x.kept j (omega arith) (omega (arith, bound, h.3))) in
    rw e (
      whole-kept hash known w w' last c len at x (omega (arith, h.3)) h.4 h.0,
      get64-Agree w.mem w'.mem (at + 8)
            (λ j u v. x.kept j (omega arith) (omega (arith, bound, h.3)))
          ∙ h.1,
      h.2,
      h.3,
      h.4,
      Rows-Agree known w.mem w'.mem (at + n) (at + 32) d.entries
          (λ j u v. x.kept j (omega arith) (omega (arith, bound))) h.5,
      Commits-snoc hash known w w' last c len (at + n) ds x h.6,
    )
