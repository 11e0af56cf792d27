-- ===== src/Wal/Iterate.antt =====
-- `xdb_wal_iterate`: the records of the commits, up to the end of the log or the first commit that is
-- not whole. `none` is a loop that goes on after as many turns as there are bytes in the log.
use mathlib.Core.Option
use cross_db.Base.{
  ℕ, zero, suc, ◌+◌, ◌-◌, ◌%◌, ◌^◌, Bool, true, false, not, ◌==◌, ltb, leb, ◌&&◌, if◌then◌else◌,
  Option, none, some, List, [], ◌∷◌, ◌++◌,
}
use cross_db.Wal.Bytes.{Mem, read, get32, get64}
use cross_db.Wal.{Wal}

-- `xdb_walrow_t` as the callback gets it; `row_data` are the bytes from the record's 12th on.
pub record WalRow : Type 0 where
  pub row_len : ℕ
  pub row_id : ℕ
  pub tbl_xoid : ℕ
  pub row_data : Mem

unfoldable pub row_at : Mem → ℕ → WalRow
row_at m o = record {
  row_len = get32 m o;
  row_id = get32 m (o + 4);
  tbl_xoid = get32 m (o + 8);
  row_data = λ j. m (o + 12 + j);
}

-- The inner loop from the record at `o` on; `known` tells the ids that `xdb_objm_getbyid` finds.
unfoldable pub rows_of : (ℕ → Bool) → Mem → ℕ → ℕ → ℕ → Option (List WalRow)
rows_of known m zero end o = none
rows_of known m (suc n) end o =
    let r = row_at m o in
    if not (known r.tbl_xoid) then some [] else elim (ltb (o + r.row_len) end) [
      | true ↦ Option.map (λ rs. r ∷ rs) (rows_of known m n end (o + r.row_len))
      | false ↦ some (r ∷ [])
    ]

-- The checks of a commit at `at` in a log of `commit_size` bytes: its length, the size of the log up to
-- its end, which is added up in 64 bits, and its checksum if it has one, against `found`, that of its
-- records.
abbrev pub passes : ℕ → ℕ → ℕ → ℕ → ℕ → Bool
passes commit_size at len sum found =
    ltb at commit_size
    && ltb 0 len
    && leb ((at + 32 + len) % 2 ^ 64) commit_size
    && (if ltb 0 sum then found == sum else true)

-- The checksum of the records, in 32 bits; the length is computed in 64 bits.
abbrev pub sum_of : (List ℕ → ℕ) → Mem → ℕ → ℕ → ℕ
sum_of hash m at len = hash (read m (at + 32) ((len + (2 ^ 64 - 32)) % 2 ^ 64)) % 2 ^ 32

-- The conditions of the outer loop and of its two breaks.
unfoldable pub is_whole : (List ℕ → ℕ) → Wal → ℕ → Bool
is_whole hash w at =
    let len = get64 w.mem at in
    passes w.commit_size at len (get32 w.mem (at + 24)) (sum_of hash w.mem at len)

-- The outer loop from the commit at `at` on: the calls, and the id of the last commit. A length that makes
-- the sum wrap leads back, and `none` is also a step to before the log.
unfoldable pub commits_of : (List ℕ → ℕ) → (ℕ → Bool) → Wal → ℕ → ℕ → ℕ → Option (List WalRow × ℕ)
unfolding Option.bind
commits_of hash known w zero at last = none
commits_of hash known w (suc n) at last = elim (is_whole hash w at) [
  | false ↦ some ([], last)
  | true ↦
      let end = (at + 32 + get64 w.mem at) % 2 ^ 64 in
      Option.bind (rows_of known w.mem (suc (get64 w.mem at)) (end - 32) (at + 32)) λ rs.
        Option.map (λ r. (rs ++ r.0, r.1))
          (elim (ltb end 32) [
            | true ↦ none
            | false ↦ commits_of hash known w n (end - 32) (get64 w.mem (at + 8))
          ])
]

-- `xdb_wal_iterate`
unfoldable pub iterate : (List ℕ → ℕ) → (ℕ → Bool) → Wal → Option (List WalRow × ℕ)
unfolding commits_of
iterate hash known w = commits_of hash known w (suc w.commit_size) 152 w.commit_id
