-- ===== src/Wal/Tests.antt =====
-- Logs with whole and torn commits, a transaction that is logged and replayed, and the theorems at them.
use cross_db.Base.{
  ℕ, ◌+◌, ◌-◌, ◌^◌, refl, Bool, true, false, arith, none, some, ◌≡◌, ◌<◌, ◌≤◌, List, [], ◌∷◌, ◌++◌,
  ◌==◌, if◌then◌else◌,
}
use mathlib.Core.Option
use cross_db.Bmp.Scan.{word_ids, for_each}
use cross_db.Bmp.Leaf
use cross_db.Bmp.Leaf.{Leaf}
use cross_db.Bmp.Root
use cross_db.Bmp.Root.{Bmp, Node}
use cross_db.Trans.{DbTrans}
use cross_db.Wal.{Wal, Walm, Entry, LogTable, entry_bytes, new_entry, del_entry, expand, log_row}
use cross_db.Wal.Write.{commit_bytes, db_wal}
use cross_db.Wal.Bytes.{Agree, read, write, get32, get64}
use cross_db.Wal.Iterate.{WalRow, row_at, is_whole, commits_of, iterate}
use cross_db.Wal.Log.{AllSame, iterate-Logged}
use cross_db.Wal.Wrapped.{iterate-wraps}
use cross_db.Wal.Append.{db_entries, tbls_entries, tbl_entries}
use cross_db.Wal.Db.{iterate-db_wal}
use cross_db.Wal.Expand.{expand-room, log_row-overrun, expand-refused}

abbrev pub sum : List ℕ → ℕ
sum [] = 1
sum (b ∷ bs) = b + sum bs

abbrev all_known : ℕ → Bool
all_known x = true

-- The deletion of the row `rid` of the table 3, and a commit of it with the checksum `s`.
abbrev deleted : ℕ → Entry
deleted rid = record { row_len = 12; row_id = 2 ^ 31 + rid; tbl_xoid = 3; copied = [] }

abbrev commit_of : ℕ → ℕ → ℕ → List ℕ
commit_of id rid s = commit_bytes 44 id 99 s ++ (0 ∷ 0 ∷ 0 ∷ 0 ∷ []) ++ entry_bytes (deleted rid)

-- The checksum of the second commit is wrong.
abbrev torn : Wal
torn = record {
  wal_size = 4096;
  sync_size = 184;
  sync_cid = 0;
  commit_id = 5;
  commit_size = 272;
  rollback_count = 0;
  wal_active = true;
  mem =
      write (write (λ _. 7) 152 (commit_of 8 2 (sum (entry_bytes (deleted 2))))) 196
        (commit_of 9 4 1);
}

torn_replayed :
    (rs : List WalRow) × (iterate sum all_known torn ≡ some (rs, 8)) × AllSame (deleted 2 ∷ []) rs
unfolding is_whole read write get32 get64 row_at entry_bytes
torn_replayed =
    iterate-Logged sum all_known torn (record { id = 8; entries = deleted 2 ∷ [] } ∷ []) (
      refl,
      refl,
      tt,
      omega arith,
      omega arith,
      (
        record { same_len = refl; same_id = refl; same_tbl = refl; same_data = refl },
        omega arith,
        refl,
        refl,
      ),
      refl,
    )

-- Behind the commit stands a header of 2 ^ 64 - 44 bytes without a checksum.
abbrev wrapping : Wal
wrapping = record torn {
  mem =
      write (write (λ _. 0) 152 (commit_of 8 2 (sum (entry_bytes (deleted 2))))) 196
        (commit_bytes (2 ^ 64 - 44) 0 0 0);
}

never_done : commits_of sum all_known wrapping 273 152 5 ≡ none
unfolding is_whole read write get32 get64 entry_bytes
never_done =
    iterate-wraps sum all_known wrapping 152 44 refl refl (omega arith) (omega arith) refl refl 273
      5

-- An empty log, and a transaction that deletes the row 2 and inserts the row 5 of the table 3.
abbrev pub empty : Walm
empty = record {
  wal = record {
    wal_size = 4280;
    sync_size = 184;
    sync_cid = 0;
    commit_id = 6;
    commit_size = 184;
    rollback_count = 0;
    wal_active = true;
    mem = λ j. if j == 900 then 1 else 0;
  };
  wal_cap = 1;
  mapped = 4280;
}

abbrev one_leaf : ℕ → Leaf
one_leaf i = record { bmp4 = 1; bmp5 = λ _. 2 ^ i; count = 1; b_malloc = false }

abbrev one_bit : ℕ → Bmp
one_bit i = record {
  bmp1 = λ w. if w == 0 then 1 else 0;
  nodes = λ _ _.
      some
        (record { bmp2 = 1; bmp3 = λ _. 1; leaves = λ _ _. some (one_leaf i); b_malloc = false });
  lv1_bmp = λ _. record { bmp2 = 1; bmp3 = λ _. 1; leaves = λ _ _. none; b_malloc = false };
  lv2_bmp = λ _. one_leaf i;
  lv1_alloc = 1;
  lv2_alloc = 1;
}

abbrev changes : DbTrans
changes = record {
  tbl_wrlocks = one_leaf 3;
  tbl_rdlocks = one_leaf 3;
  tbl_rows = one_leaf 3;
  tbl_trans = λ _. some (record { new_rows = one_bit 5; del_rows = one_bit 2 });
}

abbrev pub logged : LogTable
logged = record {
  xoid = 3;
  in_memory = false;
  row_size = 8;
  vfld_count = 0;
  row = λ rid j. rid + j;
  vdata = λ _. none;
}

abbrev entries : List Entry
entries = deleted 2 ∷ new_entry logged 5 ∷ []

transaction_replayed :
    (w' : Walm) × (b_flush : Bool) × (rs : List WalRow) × (db_wal
        (λ _. none)
        sum
        99
        0
        (λ _. logged)
        changes
        empty
      ≡ some (w', b_flush))
    × (iterate sum all_known w'.wal ≡ some (rs, 7))
    × AllSame entries rs
unfolding new_entry get64 read is_whole db_entries tbls_entries tbl_entries del_entry Leaf.iterate
    Root.iterate word_ids for_each Option.bind
transaction_replayed =
    iterate-db_wal sum all_known (λ _. none) 99 0 (λ _. logged) changes empty [] entries
      (refl, refl) refl tt
      (
        record {
          len_fits = omega arith;
          id_fits = omega arith;
          tbl_fits = omega arith;
          data_fits = omega arith;
          tbl_known = refl;
        },
        (
          record {
            len_fits = omega arith;
            id_fits = omega arith;
            tbl_fits = omega arith;
            data_fits = omega arith;
            tbl_known = refl;
          },
          tt,
        ),
      )
      (record { in_file = omega arith; in_map = omega arith; in_word = omega arith })

room_made :
    (w' : Walm) × (expand (λ _. some (λ _. 0)) empty 9000 ≡ some w')
    × (9216 ≤ w'.wal.wal_size)
    × (w'.wal.wal_size ≤ w'.mapped)
    × (w'.wal_cap ≤ 2 ^ 18)
    × (w'.wal.commit_size ≡ 184)
    × Agree empty.wal.mem w'.wal.mem 0 4280
room_made =
    expand-room (λ _. some (λ _. 0)) empty 9000 (λ c. (λ _. 0, refl)) (omega arith) (omega arith)
      (omega arith) (omega arith)

-- The second of two rows of 3000 bytes.
abbrev long_entry : Entry
long_entry = record { row_len = 3000; row_id = 4; tbl_xoid = 3; copied = read (λ _. 1) 0 2988 }

second_lost : log_row (λ _. some (λ _. 0)) (empty, 3000) long_entry ≡ none
unfolding read
second_lost = log_row-overrun (λ _. some (λ _. 0)) empty 3000 long_entry (omega arith) (omega arith)

file_full : (w' : Walm) × (expand (λ _. none) empty 9000 ≡ some w') × (w'.mapped < w'.wal.wal_size)
file_full =
    expand-refused (λ _. none) empty 9000 (λ c. refl) (omega arith) (omega arith) (omega arith) refl
      (omega arith)
