-- ===== src/Wal/Recover/Tests.antt =====
-- Two logs of a database, the active one with a commit, that are switched, and done again after a crash;
-- a row that is logged and put back.
use cross_db.Base.{
  ℕ, ◌+◌, ◌^◌, refl, ◌≡◌, Bool, ltb, true, false, arith, none, some, List, [], ◌∷◌, ◌++◌, update,
}
use cross_db.Store.{Stg}
use cross_db.Index.{IdxOps, add_row}
use cross_db.Trans.{Table}
use cross_db.Wal.{Walm, Entry, LogTable, entry_bytes, new_entry}
use cross_db.Wal.Write.{commit_bytes}
use cross_db.Wal.Bytes.{Mem, read, write, get32, get64}
use cross_db.Wal.Iterate.{WalRow, row_at, is_whole}
use cross_db.Wal.Log.{Commit}
use cross_db.Wal.Commit.{Filled}
use cross_db.Wal.Flush.{switch_lem, Wals, switch}
use cross_db.Wal.Redo.{redo_row, redo-new_entry, logged_row}

abbrev none_summed : List ℕ → ℕ
none_summed bs = 0

abbrev all_known : ℕ → Bool
all_known x = true

-- An index that keeps the ids.
abbrev ids : IdxOps
ids = record { Idx = List ℕ; add = λ x rid row. some (rid ∷ x); rem = λ x rid row. x }

abbrev stg : Stg
stg = record {
  blk_size = 64;
  blk_off = 128;
  ctl_off = 6;
  no_alloc = false;
  clear = true;
  head = 0;
  tail = 0;
  count = 2;
  maxid = 2;
  cap = 2;
  rows = λ id. record { next = 4; ctrl = 2; payload = 7 };
  mapped = 256;
}

abbrev tbl : Table ids
tbl = record {
  stg = stg;
  idx_order = 0 ∷ [];
  idx = λ _. [];
  in_memory = false;
  ttl = none;
  cur_ts = 0;
}

abbrev logged : LogTable
logged = record {
  xoid = 3;
  in_memory = false;
  row_size = 8;
  vfld_count = 0;
  row = λ rid j. rid + j;
  vdata = λ _. none;
}

-- The record of the row 2 at the start of the memory.
abbrev new_record : WalRow
new_record = record { row_len = 20; row_id = 2; tbl_xoid = 3; row_data = λ j. 2 + j }

row_put_back :
    redo_row 8 tbl new_record
    ≡ some (record tbl {
      stg = record stg { rows = update stg.rows 2 (logged_row tbl logged 2 new_record) };
      idx = (add_row ids (0 ∷ []) (λ _. []) 2 (logged_row tbl logged 2 new_record)).1;
    })
unfolding new_entry read
row_put_back =
    redo-new_entry tbl logged 2 new_record refl (omega arith) (omega arith) (omega arith)
      (omega arith) (omega arith)
      (record { same_len = refl; same_id = refl; same_tbl = refl; same_data = refl })

-- A log with the commit 8, which deletes the row 2 of the table 3.
abbrev deleted : Entry
deleted = record { row_len = 12; row_id = 2 ^ 31 + 2; tbl_xoid = 3; copied = [] }

abbrev log_of : Bool → ℕ → Mem → Walm
log_of active size m = record {
  wal = record {
    wal_size = 4280;
    sync_size = 184;
    sync_cid = 0;
    commit_id = 8;
    commit_size = size;
    rollback_count = 0;
    wal_active = active;
    mem = m;
  };
  wal_cap = 1;
  mapped = 4280;
}

abbrev logs : Wals
logs = record {
  active =
      log_of true 228 (
        write (λ _. 0) 152 (commit_bytes 44 8 99 0 ++ (0 ∷ 0 ∷ 0 ∷ 0 ∷ []) ++ entry_bytes deleted));
  backup = log_of false 184 (λ _. 0);
}

abbrev commits : List Commit
commits = record { id = 8; entries = deleted ∷ [] } ∷ []

-- The active log holds its commit.
holds : Filled none_summed all_known logs.active.wal commits
unfolding is_whole read write get32 get64 row_at entry_bytes
holds = (
  refl,
  refl,
  tt,
  omega arith,
  omega arith,
  (
    record { same_len = refl; same_id = refl; same_tbl = refl; same_data = refl },
    omega arith,
    refl,
    refl,
  ),
  (refl, refl),
)

empty_holds : Filled none_summed all_known logs.backup.wal []
unfolding read get64
empty_holds = (refl, refl)

abbrev no_commits : List Commit
no_commits = []

logs_switched :
    (cs' : List Commit) × (bs' : List Commit) × Filled none_summed all_known
      (switch logs).1.active.wal
      cs'
    × Filled none_summed all_known (switch logs).1.backup.wal bs'
    × (bs' ++ cs' ≡ commits)
    × ((switch logs).0 ≡ ltb 184 (switch logs).1.backup.wal.commit_size)
    × (no_commits ≡ [] → cs' ≡ [])
    × ((switch logs).1.active.wal.wal_active ≡ true)
    × ((switch logs).1.backup.wal.wal_active ≡ false)
    × ((switch logs).1.active.wal.commit_id ≡ 8)
    × ((switch logs).1.active.wal.rollback_count ≡ 0)
logs_switched = switch_lem none_summed all_known logs commits [] holds empty_holds refl refl

-- The active log behind a crash: the next commit is written, and `commit_size` is not yet raised.
abbrev crashed : Wals
crashed = record logs {
  active = log_of true 228 (
      write (λ _. 0) 152
        (commit_bytes 44 8 99 0
          ++ (0 ∷ 0 ∷ 0 ∷ 0 ∷ [])
          ++ entry_bytes deleted
          ++ commit_bytes 44 9 99 0));
}
