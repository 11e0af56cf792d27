-- ===== src/Wal/Header.antt =====
-- The bytes that a commit's header and the end mark leave in memory.
use cross_db.Base.{
  ℕ, ◌+◌, ◌%◌, ◌^◌, ◌<◌, ◌≤◌, ◌≡◌, sym, ap, ◌∙◌, ◌⊎◌, Bool, arith, List, ◌++◌, subst, inl, inr,
}
use cross_db.Wal.{Wal, Entry}
use cross_db.Wal.Write.{commit_bytes}
use cross_db.Wal.Bytes.{
  Mem, read, write, le, get64, Agree, Agree-trans, write-Agree, read-Agree, get32-write,
  get64-write, get32-below, get64-below, write-append,
}
use cross_db.Wal.Log.{Rows, NonEmpty}
use cross_db.Wal.Rows.{Rows-Agree}
use cross_db.Wal.Commit.{Extended}

-- The four parts of a header.
abbrev pub header : Mem → ℕ → ℕ → ℕ → ℕ → ℕ → Mem
header m at len id now sum =
    write (write (write (write m at (le 8 len)) (at + 8) (le 8 id)) (at + 16) (le 8 now)) (at + 24)
      (le 4 sum)

pub commit_parts :
    (m : Mem) (at len id now sum : ℕ)
    → write m at (commit_bytes len id now sum) ≡ header m at len id now sum
commit_parts m at len id now sum =
    let m1 = write m at (le 8 len) in
    let m2 = write m1 (at + 8) (le 8 id) in
    write-append m at (le 8 len) (le 8 id ++ le 8 now ++ le 4 sum)
    ∙ write-append m1 (at + 8) (le 8 id) (le 8 now ++ le 4 sum)
    ∙ ap (λ (x : ℕ). write m2 x (le 8 now ++ le 4 sum)) (omega arith)
    ∙ write-append m2 (at + 16) (le 8 now) (le 4 sum)
    ∙ ap (λ (x : ℕ). write (write m2 (at + 16) (le 8 now)) x (le 4 sum)) (omega arith)

header-len :
    (m : Mem) (at len id now sum : ℕ) → len < 2 ^ 64 → get64 (header m at len id now sum) at ≡ len
header-len m at len id now sum h =
    let m1 = write m at (le 8 len) in
    let m2 = write m1 (at + 8) (le 8 id) in
    get64-below (write m2 (at + 16) (le 8 now)) at (at + 24) (le 4 sum) (omega arith)
    ∙ get64-below m2 at (at + 16) (le 8 now) (omega arith)
    ∙ get64-below m1 at (at + 8) (le 8 id) (omega arith)
    ∙ get64-write m at len h

header-id :
    (m : Mem) (at len id now sum : ℕ)
    → id < 2 ^ 64
    → get64 (header m at len id now sum) (at + 8) ≡ id
header-id m at len id now sum h =
    let m1 = write m at (le 8 len) in
    let m2 = write m1 (at + 8) (le 8 id) in
    get64-below (write m2 (at + 16) (le 8 now)) (at + 8) (at + 24) (le 4 sum) (omega arith)
    ∙ get64-below m2 (at + 8) (at + 16) (le 8 now) (omega arith)
    ∙ get64-write m1 (at + 8) id h

-- What the header and the mark leave.
header-Agree :
    (m : Mem) (at len id now sum a b : ℕ)
    → (b ≤ at) ⊎ (at + 32 ≤ a)
    → Agree m (header m at len id now sum) a b
header-Agree m at len id now sum a b h =
    subst (λ (x : Mem). Agree m x a b) (commit_parts m at len id now sum)
      (write-Agree m at (commit_bytes len id now sum) a b
        (elim h [ inl l ↦ inl l | inr g ↦ inr (omega arith) ]))

-- All that a commit of `k` bytes of records leaves in memory.
abbrev pub sealed : Mem → ℕ → ℕ → ℕ → ℕ → ℕ → Mem
sealed m at k id now sum = write (header m at (k + 32) id now sum) (at + 32 + k) (le 8 0)

sealed-Agree :
    (m : Mem) (at k id now sum a b : ℕ)
    → (b ≤ at) ⊎ (at + 32 ≤ a)
    → b ≤ at + 32 + k
    → Agree m (sealed m at k id now sum) a b
sealed-Agree m at k id now sum a b h below =
    let m1 = header m at (k + 32) id now sum in
    Agree-trans m m1 _ a b (header-Agree m at (k + 32) id now sum a b h)
      (write-Agree m1 (at + 32 + k) (le 8 0) a b (inl below))

-- The log with the new commit goes on from the old one.
pub sealed-Extended :
    (hash : List ℕ → ℕ) (known : ℕ → Bool) (w v : Wal) (m : Mem) (at k id now : ℕ) (es : List Entry)
    → at + 32 ≡ w.commit_size
    → at + 32 + (k + 32) < 2 ^ 64
    → id < 2 ^ 64
    → NonEmpty es
    → Agree w.mem m 0 (at + 32)
    → Rows known m (at + 32 + k) (at + 32) es
    → Extended hash known w
        (record v {
          mem = sealed m at k id now (hash (read m (at + 32) k) % 2 ^ 32);
          commit_size = w.commit_size + k + 32;
        })
        at
        (record { id = id; entries = es })
        (k + 32)
sealed-Extended hash known w v m at k id now es ends fits id_fits ne kept rows =
    let sum = hash (read m (at + 32) k) % 2 ^ 32 in
    let m1 = header m at (k + 32) id now sum in
    let f = sealed m at k id now sum in
    let same = sealed-Agree m at k id now sum in
    record {
      ends = ends;
      size = omega arith;
      kept =
          Agree-trans w.mem m f 0 at (λ j u lt. kept j u (omega arith))
            (same 0 at (inl (omega arith)) (omega arith));
      header =
          get64-below m1 at (at + 32 + k) (le 8 0) (omega arith)
          ∙ header-len m at (k + 32) id now sum (omega (arith, fits));
      id =
          get64-below m1 (at + 8) (at + 32 + k) (le 8 0) (omega arith)
          ∙ header-id m at (k + 32) id now sum id_fits;
      sum =
          get32-below m1 (at + 24) (at + 32 + k) (le 8 0) (omega arith)
          ∙ get32-write _ (at + 24) sum (omega arith)
          ∙ ap (λ (bs : List ℕ). hash bs % 2 ^ 32)
              (sym (
                  read-Agree m f (at + 32) k
                    (same (at + 32) (at + 32 + k) (inr (omega arith)) (omega arith)))
                ∙ ap (λ (x : ℕ). read f (at + 32) x) (omega arith));
      rows =
          subst (λ (x : ℕ). Rows known f x (at + 32) es) (omega arith)
            (Rows-Agree known m f (at + 32 + k) (at + 32) es
              (same (at + 32) (at + 32 + k) (inr (omega arith)) (omega arith)) rows);
      end_mark = ap (get64 f) (omega arith) ∙ get64-write m1 (at + 32 + k) 0 (omega arith);
      filled = ne;
      long = omega arith;
      in_word = fits;
    }
