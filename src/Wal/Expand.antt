-- ===== src/Wal/Expand.antt =====
-- `xdb_wal_expand`: the loop that doubles the capacity ends, the room it makes, and the room it does not
-- make when the transaction has already written records.
use mathlib.Core.Option
use cross_db.Base.{
  ℕ, zero, suc, ◌+◌, ◌*◌, ◌%◌, ◌^◌, ◌<◌, ◌≤◌, ◌≡◌, refl, ap, ◌⊎◌, true, false, ltb, leb, arith,
  if◌then◌else◌, none, some, length, inl, inr, Bool-cases, lt→ltb, ltb→lt,
}
use cross_db.Wal.{Walm, Entry, Remap, put, doubled, truncate, expand, log_row, entry_bytes}
use cross_db.Wal.Bytes.{Mem, Agree}
use cross_db.Wal.Rows.{length-entry}

-- The capacity after `n` turns of the loop.
abbrev after : ℕ → ℕ → ℕ
after zero cap = cap
after (suc n) cap = after n (cap * 2)

doubled-turns :
    (n req cap : ℕ)
    → req ≤ 184 + after (suc n) cap * 4096
    → cap < 2 ^ 18
    → req ≤ 2 ^ 30
    → (c : ℕ) × (doubled (suc n) req cap ≡ some c)
      × (req ≤ 184 + c * 4096)
      × ((c ≡ cap * 2) ⊎ (c * 2048 < req))
unfolding doubled
doubled-turns zero req cap h fits below = (
  cap * 2,
  (let e : ltb (184 + cap * 2 * 4096) req ≡ false = ground arith in
      let i : ltb (cap * 2 * 4096) (2 ^ 31) ≡ true = ground arith in rw (doubled, i, e) refl),
  h,
  inl refl,
)
doubled-turns (suc n) req cap h fits below = elim (Bool-cases (ltb (184 + cap * 2 * 4096) req)) [
  | inl e ↦
      let i : ltb (cap * 2 * 4096) (2 ^ 31) ≡ true = ground arith in
      let (c, eq, room, small) =
        doubled-turns n req (cap * 2) h (omega (arith, ltb→lt _ _ e)) below in
      (
        c,
        rw (doubled, i, e) eq,
        room,
        inr (elim small [ inl t ↦ omega (arith, ltb→lt _ _ e) | inr t ↦ t ]),
      )
  | inr e ↦
      let i : ltb (cap * 2 * 4096) (2 ^ 31) ≡ true = ground arith in
      (cap * 2, rw (doubled, i, e) refl, ground (arith, e), inl refl)
]

-- The loop of `xdb_wal_expand` ends for each capacity above 0 and below 2 ^ 18 and each request up to
-- 1 GB, and no `int` overflows; the new
-- capacity is enough for the request, and is the first double or less than what the request doubled needs.
pub doubled_lem :
    (req cap : ℕ)
    → 0 < cap
    → cap < 2 ^ 18
    → req ≤ 2 ^ 30
    → (c : ℕ) × (doubled 31 req cap ≡ some c)
      × (req ≤ 184 + c * 4096)
      × ((c ≡ cap * 2) ⊎ (c * 2048 < req))
doubled_lem req cap pos fits h = doubled-turns 30 req cap (omega arith) fits h

truncated :
    (remap : Remap) (w : Walm) (c : ℕ) (fresh : Mem)
    → remap c ≡ some fresh
    → truncate remap c w ≡ record w {
      mapped = (184 + 4096 * c) % 2 ^ 32;
      wal = record w.wal { mem = λ j. if ltb j w.mapped then w.wal.mem j else fresh j };
    }
unfolding truncate
truncated remap w c fresh e = rw (truncate, e) refl

not_truncated : (remap : Remap) (w : Walm) (c : ℕ) → remap c ≡ none → truncate remap c w ≡ w
unfolding truncate
not_truncated remap w c e = rw (truncate, e) refl

-- The log with another mapping and capacity.
abbrev resized : Walm → ℕ → ℕ → Mem → Walm
resized w cap mapped m = record w {
  mapped = mapped;
  wal_cap = cap;
  wal = record w.wal { mem = m; wal_size = 184 + cap * 4096 };
}

grows :
    (remap : Remap) (w : Walm) (size c : ℕ) (fresh : Mem)
    → ltb w.wal.wal_size (w.wal.commit_size + size + 32) ≡ true
    → doubled 31 (w.wal.commit_size + size + 32) w.wal_cap ≡ some c
    → remap c ≡ some fresh
    → expand remap w size
      ≡ some (
          resized w c
            ((184 + 4096 * c) % 2 ^ 32)
            (λ j. if ltb j w.mapped then w.wal.mem j else fresh j))
unfolding expand
grows remap w size c fresh e eq ef =
    rw (e, eq)
      (ap
        (λ (t : Walm).
          some (record t { wal_cap = c; wal = record t.wal { wal_size = 184 + c * 4096 } }))
        (truncated remap w c fresh ef))

stays :
    (remap : Remap) (w : Walm) (size c : ℕ)
    → ltb w.wal.wal_size (w.wal.commit_size + size + 32) ≡ true
    → doubled 31 (w.wal.commit_size + size + 32) w.wal_cap ≡ some c
    → remap c ≡ none
    → expand remap w size ≡ some (resized w c w.mapped w.wal.mem)
unfolding expand
stays remap w size c e eq ef =
    rw (e, eq)
      (ap
        (λ (t : Walm).
          some (record t { wal_cap = c; wal = record t.wal { wal_size = 184 + c * 4096 } }))
        (not_truncated remap w c ef))

-- Where the file can grow, `wal_cap` is from 1 to 2 ^ 17, the row and a header behind `commit_size` end by
-- 2 ^ 29, and the log is mapped, `xdb_wal_expand` succeeds without an overflow of an `int` and leaves room
-- for the row and the header, in the file and in the mapping; what was mapped is kept.
pub expand-room :
    (remap : Remap) (w : Walm) (size : ℕ)
    → ((cap : ℕ) → (fresh : Mem) × (remap cap ≡ some fresh))
    → 0 < w.wal_cap
    → w.wal_cap ≤ 2 ^ 17
    → w.wal.commit_size + size + 32 ≤ 2 ^ 29
    → w.wal.wal_size ≤ w.mapped
    → (w' : Walm) × (expand remap w size ≡ some w')
      × (w.wal.commit_size + size + 32 ≤ w'.wal.wal_size)
      × (w'.wal.wal_size ≤ w'.mapped)
      × (w'.wal_cap ≤ 2 ^ 18)
      × (w'.wal.commit_size ≡ w.wal.commit_size)
      × Agree w.wal.mem w'.wal.mem 0 w.mapped
unfolding expand
expand-room remap w size can pos cap small fits =
    elim (Bool-cases (ltb w.wal.wal_size (w.wal.commit_size + size + 32))) [
      | inl e ↦
          let (c, eq, room, fit) =
            doubled_lem (w.wal.commit_size + size + 32) w.wal_cap pos (omega arith) (omega arith) in
          let (fresh, ef) = can c in
          let bound : c ≤ 2 ^ 18 = elim fit [ inl t ↦ omega arith | inr t ↦ omega arith ] in
          (
            resized w c ((184 + 4096 * c) % 2 ^ 32)
                (λ j. if ltb j w.mapped then w.wal.mem j else fresh j),
            grows remap w size c fresh e eq ef,
            room,
            omega (arith, bound),
            bound,
            refl,
            λ j u v. ap (λ t. if t then w.wal.mem j else fresh j) (lt→ltb _ _ v),
          )
      | inr e ↦ (w, rw e refl, ground (arith, e), fits, omega arith, refl, λ j u v. refl)
    ]

-- The room that `xdb_wal_expand` asks for does not count the records that the transaction has already
-- written: a row for which it sees room is written outside of the mapping when those records, with the
-- row behind them, reach over the end.
pub log_row-overrun :
    (remap : Remap) (w : Walm) (commit_len : ℕ) (e : Entry)
    → w.wal.commit_size + e.row_len + 32 ≤ w.wal.wal_size
    → w.mapped < w.wal.commit_size + commit_len + 12 + length e.copied
    → log_row remap (w, commit_len) e ≡ none
unfolding log_row expand put Option.bind
log_row-overrun remap w commit_len e h over =
    let is_room : ltb w.wal.wal_size (w.wal.commit_size + e.row_len + 32) ≡ false = ground arith in
    let out : leb (w.wal.commit_size + commit_len + length (entry_bytes e)) w.mapped ≡ false =
      ground (arith, length-entry e) in
    rw (is_room, out) refl

-- When the file cannot grow, and no `int` overflows since `wal_cap` is from 1 to 2 ^ 18 - 1 and the row and a
-- header end by 2 ^ 30, `xdb_wal_expand` of a mapped log that is too small still raises `wal_size` over the
-- end of the mapping.
pub expand-refused :
    (remap : Remap) (w : Walm) (size : ℕ)
    → ((cap : ℕ) → remap cap ≡ none)
    → 0 < w.wal_cap
    → w.wal_cap < 2 ^ 18
    → w.wal.commit_size + size + 32 ≤ 2 ^ 30
    → w.wal.wal_size ≡ w.mapped
    → w.wal.wal_size < w.wal.commit_size + size + 32
    → (w' : Walm) × (expand remap w size ≡ some w') × (w'.mapped < w'.wal.wal_size)
expand-refused remap w size cannot pos cap small same need =
    let req = w.wal.commit_size + size + 32 in
    let (c, eq, room, fit) = doubled_lem req w.wal_cap pos cap small in
    (
      resized w c w.mapped w.wal.mem,
      stays remap w size c (lt→ltb w.wal.wal_size req need) eq (cannot c),
      omega (arith, room),
    )
