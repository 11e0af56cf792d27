-- ===== src/Wal/Write.antt =====
-- The header of a commit, and `xdb_trans_db_wal` as a whole.
use mathlib.Core.Option
use cross_db.Base.{
  ℕ, ◌+◌, ◌-◌, ◌*◌, ◌%◌, ◌^◌, Bool, true, false, ◌==◌, ltb, leb, if◌then◌else◌, Option, some, List,
  ◌++◌,
}
use cross_db.Trans.{DbTrans}
use cross_db.Wal.{Wal, Walm, Remap, LogTable, put, tbls_wal}
use cross_db.Wal.Bytes.{read, le}

-- The header of a commit, in its 28 bytes that are written, and the length 0 behind it.
abbrev pub commit_bytes : ℕ → ℕ → ℕ → ℕ → List ℕ
commit_bytes len id time sum = le 8 len ++ le 8 id ++ le 8 time ++ le 4 sum

unfoldable pub put_at : (List ℕ → ℕ) → ℕ → Walm × ℕ → ℕ → Option Walm
unfolding Option.bind
put_at hash now (w, commit_len) at =
    let id = (w.wal.commit_id + 1) % 2 ^ 64 in
    let sum = hash (read w.wal.mem at commit_len) % 2 ^ 32 in
    Option.bind
      (put (record w { wal = record w.wal { commit_id = id } }) (at - 32)
        (commit_bytes (commit_len + 32) id now sum))
      λ w'. put w' (at + commit_len) (le 8 0)

unfoldable pub put_commit : (List ℕ → ℕ) → ℕ → Walm × ℕ → Option Walm
unfolding put_at
put_commit hash now st = put_at hash now st st.0.wal.commit_size

-- Is the log synchronised with the disk at this commit?
abbrev pub is_synced : ℕ → Wal → Bool
is_synced sync_mode w =
    if ltb 0 sync_mode then leb sync_mode ((w.commit_id + (2 ^ 64 - w.sync_cid)) % 2 ^ 64) else true

-- The sizes behind the commit.
abbrev pub move_on : ℕ → ℕ → Wal → Wal
move_on sync_mode commit_len w =
    let size = w.commit_size + commit_len + 32 in
    if is_synced sync_mode w
    then record w { commit_size = size; sync_size = size; sync_cid = w.commit_id }
    else record w { commit_size = size }

-- `xdb_trans_db_wal`, for a database with files; `now` is the time and `hash` is `xdb_wyhash`. With
-- the result, whether `xdb_flush_db` is called.
unfoldable pub db_wal :
    Remap → (List ℕ → ℕ) → ℕ → ℕ → (ℕ → LogTable) → DbTrans → Walm → Option (Walm × Bool)
unfolding Option.bind
db_wal remap hash now sync_mode tables d w = Option.bind (tbls_wal remap tables d w) λ st.
    if st.1 == 0
    then some (st.0, false)
    else Option.map
        (λ w'.
          let wal = move_on sync_mode st.1 w'.wal in
          (record w' { wal = wal }, ltb (256 * 1024 * 1024) wal.commit_size))
        (put_commit hash now st)
