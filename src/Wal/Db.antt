-- ===== src/Wal/Db.antt =====
-- `xdb_trans_db_wal` as a whole: the commit that it writes is the next one that a replay finds.
use mathlib.Core.Option
use mathlib.Core.List.{append-nil, append_assoc}
use cross_db.Base.{
  ℕ, ◌+◌, ◌-◌, ◌*◌, ◌%◌, ◌^◌, ◌<◌, ◌≤◌, ◌≡◌, refl, sym, ap, ◌∙◌, Bool, ltb, arith, some, List, [],
  ◌∷◌, ◌++◌, All, subst, ne→==, if_both,
}
use cross_db.Trans.{DbTrans}
use cross_db.Wal.{Wal, Walm, Entry, LogTable, Remap}
use cross_db.Wal.Write.{put_at, put_commit, commit_bytes, move_on, db_wal, is_synced}
use cross_db.Wal.Bytes.{Mem, read, le}
use cross_db.Wal.Iterate.{WalRow, iterate}
use cross_db.Wal.Log.{Rows, Commit, NonEmpty, entries_of, last_id, AllSame, iterate-Logged}
use cross_db.Wal.Rows.{EntryOk, total, with_mem, Room, put-fits}
use cross_db.Wal.Append.{log_rows, db_entries, tbls_wal_lem}
use cross_db.Wal.Commit.{Filled, Filled-end, Commits-snoc, ends-Logged}
use cross_db.Wal.Header.{header, sealed, sealed-Extended, commit_parts}

-- The two writes of the commit.
put_commit-fits :
    (hash : List ℕ → ℕ) (now : ℕ) (w : Walm) (k at : ℕ)
    → at + 32 ≡ w.wal.commit_size
    → at + 32 + k + 8 ≤ w.mapped
    → put_commit hash now (w, k)
      ≡ some (record w {
        wal = record w.wal {
          commit_id = (w.wal.commit_id + 1) % 2 ^ 64;
          mem =
              sealed w.wal.mem at k
                ((w.wal.commit_id + 1) % 2 ^ 64)
                now
                (hash (read w.wal.mem (at + 32) k) % 2 ^ 32);
        };
      })
unfolding put_commit put_at Option.bind
put_commit-fits hash now w k at ends room =
    let id = (w.wal.commit_id + 1) % 2 ^ 64 in
    let sum = hash (read w.wal.mem (at + 32) k) % 2 ^ 32 in
    let v = record w { wal = record w.wal { commit_id = id } } in
    let first =
      put-fits v at (commit_bytes (k + 32) id now sum) (omega arith)
      ∙ ap (λ (x : Mem). some (with_mem v x)) (commit_parts w.wal.mem at (k + 32) id now sum) in
    let second =
      put-fits (with_mem v (header w.wal.mem at (k + 32) id now sum)) (at + 32 + k) (le 8 0)
        (omega arith) in
    let start : at + 32 - 32 ≡ at = omega arith in
    ap (put_at hash now (w, k)) (sym ends) ∙ rw (start, first) second

total-pos :
    (known : ℕ → Bool) (es : List Entry) → NonEmpty es → All (EntryOk known) es → 0 < total es
total-pos known [] ne h = absurd ne
total-pos known (e ∷ es) ne h = omega (arith, h.0.data_fits)

last_id-snoc : (d : ℕ) (cs : List Commit) (c : Commit) → last_id d (cs ++ c ∷ []) ≡ c.id
last_id-snoc d [] c = refl
last_id-snoc d (b ∷ bs) c = last_id-snoc b.id bs c

entries_of-snoc :
    (cs : List Commit) (c : Commit) → entries_of (cs ++ c ∷ []) ≡ entries_of cs ++ c.entries
entries_of-snoc [] c = append-nil c.entries
entries_of-snoc (b ∷ bs) c =
    ap (λ xs. b.entries ++ xs) (entries_of-snoc bs c)
    ∙ sym (append_assoc b.entries (entries_of bs) c.entries)

-- A transaction whose entries have room is written: the log then holds its commit, with the next id,
-- behind the commits that it held.
pub db_wal-Filled :
    (hash : List ℕ → ℕ) (known : ℕ → Bool) (remap : Remap) (now sync_mode : ℕ)
    (tables : ℕ → LogTable) (d : DbTrans) (w : Walm) (cs : List Commit) (es : List Entry)
    → Filled hash known w.wal cs
    → db_entries tables d ≡ some es
    → NonEmpty es
    → All (EntryOk known) es
    → Room w (total es)
    → (w' : Walm) × (b_flush : Bool) × (db_wal remap hash now sync_mode tables d w
        ≡ some (w', b_flush))
      × Filled hash known w'.wal
          (cs ++ record { id = (w.wal.commit_id + 1) % 2 ^ 64; entries = es } ∷ [])
unfolding db_wal Option.bind
db_wal-Filled hash known remap now sync_mode tables d w cs es filled he ne ok room =
    let k = 0 + total es in
    let at = w.wal.commit_size - 32 in
    let id = (w.wal.commit_id + 1) % 2 ^ 64 in
    let in_file = room.in_file in
    let in_word = room.in_word in
    let ends : at + 32 ≡ w.wal.commit_size =
      omega (arith, Filled-end hash known w.wal 152 cs filled) in
    let (m, eq, written) =
      log_rows known remap w 0 es ok
        (record { in_file = omega arith; in_map = room.in_map; in_word = in_word }) in
    let sum = hash (read m (at + 32) k) % 2 ^ 32 in
    let v = record w.wal { commit_id = id; mem = sealed m at k id now sum } in
    let start : w.wal.commit_size + 0 ≡ at + 32 = omega arith in
    let end : w.wal.commit_size + 0 + total es ≡ at + 32 + k = omega arith in
    let rows : Rows known m (at + 32 + k) (at + 32) es =
      subst (λ (x : ℕ). Rows known m x (at + 32) es) end
        (subst (λ (x : ℕ). Rows known m (w.wal.commit_size + 0 + total es) x es) start
          written.rows) in
    let extended = λ (x : Wal).
      sealed-Extended hash known w.wal x m at k id now es ends (omega arith) (omega arith) ne
        (λ j u lt. written.kept j u (omega arith)) rows in
    (
      record w { wal = move_on sync_mode k v },
      ltb (256 * 1024 * 1024) (move_on sync_mode k v).commit_size,
      rw
          (
            tbls_wal_lem remap tables d w es he,
            eq,
            ne→== k 0 (omega (arith, total-pos known es ne ok)),
            put_commit-fits hash now (with_mem w m) k at ends (omega (arith, room.in_map)),
          )
          refl,
      if_both (λ x. Filled hash known x (cs ++ record { id = id; entries = es } ∷ []))
          (is_synced sync_mode v) _ _
          (Commits-snoc hash known w.wal _ at _ (k + 32) 152 cs
            (extended (record v { sync_size = v.commit_size + k + 32; sync_cid = v.commit_id }))
            filled)
          (Commits-snoc hash known w.wal _ at _ (k + 32) 152 cs (extended v) filled),
    )

-- A transaction whose entries have room is written, and a replay of the log then makes the calls of
-- the commits before and those of its entries, and returns its id.
pub iterate-db_wal :
    (hash : List ℕ → ℕ) (known : ℕ → Bool) (remap : Remap) (now sync_mode : ℕ)
    (tables : ℕ → LogTable) (d : DbTrans) (w : Walm) (cs : List Commit) (es : List Entry)
    → Filled hash known w.wal cs
    → db_entries tables d ≡ some es
    → NonEmpty es
    → All (EntryOk known) es
    → Room w (total es)
    → (w' : Walm) × (b_flush : Bool) × (rs : List WalRow) × (db_wal remap hash now sync_mode tables
          d w
        ≡ some (w', b_flush))
      × (iterate hash known w'.wal ≡ some (rs, (w.wal.commit_id + 1) % 2 ^ 64))
      × AllSame (entries_of cs ++ es) rs
iterate-db_wal hash known remap now sync_mode tables d w cs es filled he ne ok room =
    let c : Commit = record { id = (w.wal.commit_id + 1) % 2 ^ 64; entries = es } in
    let (w', b, eq, filled') =
      db_wal-Filled hash known remap now sync_mode tables d w cs es filled he ne ok room in
    let (rs, calls, same) =
      iterate-Logged hash known w'.wal (cs ++ c ∷ [])
        (ends-Logged hash known w'.wal 152 _ filled') in
    (
      w',
      b,
      rs,
      eq,
      calls ∙ ap (λ (x : ℕ). some (rs, x)) (last_id-snoc w'.wal.commit_id cs c),
      subst (λ (x : List Entry). AllSame x rs) (entries_of-snoc cs c) same,
    )
