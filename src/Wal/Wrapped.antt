-- ===== src/Wal/Wrapped.antt =====
-- `xdb_wal_iterate` at a header whose length makes the sum of the sizes wrap.
use mathlib.Core.Option
use cross_db.Base.{
  ℕ, zero, suc, Bool, ◌+◌, ◌-◌, ◌%◌, ◌^◌, ◌<◌, ◌≤◌, ◌≡◌, refl, subst, true, false, ltb, arith,
  Option, none, some, List, ◌++◌,
}
use cross_db.Wal.{Wal}
use cross_db.Wal.Bytes.{get32, get64}
use cross_db.Wal.Commit.{whole-bound}
use cross_db.Wal.Iterate.{WalRow, is_whole, passes, sum_of, commits_of}

passes-back :
    (size at len back found : ℕ)
    → at < size
    → 0 < back
    → back < 2 ^ 64
    → len ≡ 2 ^ 64 - back
    → back ≤ at
    → at + 32 < size + back
    → at + 32 < 2 ^ 64
    → passes size at len 0 found ≡ true
passes-back size at len back found inside pos small e lower room word =
    ground (arith, inside, pos, small, e, lower, room, word)

map-none :
    (o : Option (List WalRow))
    → Option.bind {B = List WalRow × ℕ} o
        (λ rs. Option.map {A = List WalRow × ℕ} (λ r. (rs ++ r.0, r.1)) none)
      ≡ none
unfolding Option.bind
map-none none = refl
map-none (some rs) = refl

-- A turn of the outer loop to a place from which it does not end.
turn :
    (hash : List ℕ → ℕ) (known : ℕ → Bool) (w : Wal) (n at next last : ℕ)
    → is_whole hash w at ≡ true
    → (at + 32 + get64 w.mem at) % 2 ^ 64 ≡ next + 32
    → commits_of hash known w n next (get64 w.mem (at + 8)) ≡ none
    → commits_of hash known w (suc n) at last ≡ none
unfolding commits_of
turn hash known w n at next last whole e stuck =
    let end = (at + 32 + get64 w.mem at) % 2 ^ 64 in
    let ahead : ltb end 32 ≡ false = ground (arith, e) in
    let start : end - 32 ≡ next = omega (arith, e) in
    rw (commits_of, whole, ahead, start, stuck) (map-none _)

-- Behind the whole commit at `at` stands a header whose length is 2 ^ 64 less that of the commit, and whose
-- checksum is 0.
module _ (hash : List ℕ → ℕ) (known : ℕ → Bool) (w : Wal) (at back : ℕ) where
  both :
      is_whole hash w at ≡ true
      → is_whole hash w (at + back) ≡ true
      → (at + 32 + get64 w.mem at) % 2 ^ 64 ≡ at + back + 32
      → (at + back + 32 + get64 w.mem (at + back)) % 2 ^ 64 ≡ at + 32
      → (n : ℕ)
      → ((last : ℕ) → commits_of hash known w n at last ≡ none)
        × ((last : ℕ) → commits_of hash known w n (at + back) last ≡ none)
  unfolding commits_of
  both a b ea eb zero = (λ last. refl, λ last. refl)
  both a b ea eb (suc n) =
      let (ra, rb) = both a b ea eb n in
      (
        λ last. turn hash known w n at (at + back) last a ea (rb (get64 w.mem (at + 8))),
        λ last. turn hash known w n (at + back) at last b eb (ra (get64 w.mem (at + back + 8))),
      )

  -- When a whole commit of `back` bytes in the log, which ends below 2 ^ 64 - 32, is followed by a header with
  -- the length 2 ^ 64 - `back` and without a checksum, `xdb_wal_iterate` goes from one to the other for ever:
  -- from the commit on, no number of turns is enough.
  pub iterate-wraps :
      is_whole hash w at ≡ true
      → get64 w.mem at ≡ back
      → 0 < back
      → at + 32 + back < 2 ^ 64
      → get64 w.mem (at + back) ≡ 2 ^ 64 - back
      → get32 w.mem (at + back + 24) ≡ 0
      → (n last : ℕ) → commits_of hash known w n at last ≡ none
  unfolding is_whole
  iterate-wraps whole len pos word wrapped unchecked n last =
      let bound : at + 32 + back ≤ w.commit_size =
        subst (λ v. at + 32 + v ≤ w.commit_size) len
          (whole-bound hash w at whole (omega (arith, len, word))) in
      let back_whole : is_whole hash w (at + back) ≡ true = rw unchecked (
        passes-back w.commit_size (at + back) (get64 w.mem (at + back)) back
          (sum_of hash w.mem (at + back) (get64 w.mem (at + back))) (omega (arith, bound)) pos
          (omega arith) wrapped (omega arith) (omega (arith, bound, pos)) (omega arith)) in
      (both whole back_whole (omega (arith, len, word)) (omega (arith, wrapped, word, pos)) n).0
        last
