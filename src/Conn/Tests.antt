-- ===== src/Conn/Tests.antt =====
-- A transaction that has inserted a row in the table 3 of a database, and its end.
use cross_db.Base.{◌≡◌, refl, true, false, some, [], ◌∷◌, All}
use cross_db.Bmp.Scan.{word_ids, for_each}
use cross_db.Bmp.Leaf
use cross_db.Bmp.Leaf.{Leaf}
use cross_db.Trans.Tests.{ids, with_two}
use cross_db.Wal.Tests.{empty, logged, sum}
use cross_db.Conn.{Changes, Conn, Db, System, commit, rollback}
use cross_db.Conn.End.{Released, others_saw, it_saw, commit-Released, rollback-Released}
use cross_db.Conn.Tables.{listed}

-- The list of the tables with the table 3 in it.
abbrev only_three : Leaf
only_three = record { bmp4 = 1; bmp5 = λ _. 8; count = 1; b_malloc = false }

abbrev changes : Changes ids
changes = record {
  tables = λ _. with_two.table;
  trans = record with_two.trans { tbl_rows = only_three };
}

three_listed : listed changes ≡ 3 ∷ []
unfolding Leaf.iterate word_ids for_each
three_listed = refl

-- The database 3, in memory, with the transaction.
abbrev database : Db ids
database = record {
  in_memory = true;
  sync_mode = 0;
  wals = record { active = empty; backup = empty };
  tables = changes.tables;
}

abbrev conn : Conn ids
conn = record {
  in_trans = true;
  auto_trans = true;
  db_bmp = only_three;
  db_trans = λ _. some changes.trans;
  dbs = λ _. database;
}

three_undone :
    (c' : Conn ids) × (rollback conn ≡ some c')
    × (c'.in_trans ≡ false)
    × All (λ did. Released others_saw conn did c') (Leaf.iterate conn.db_bmp 0)
unfolding Leaf.iterate word_ids for_each
three_undone = rollback-Released conn refl (
  (
    changes.trans,
    refl,
    ((with_two.changed.lists, with_two.changed.listed, with_two.changed.marked), tt),
  ),
  tt,
)

-- A system whose log reads one table; no database here is logged.
abbrev system : System ids
system = record {
  log_tables = λ did tables tid. logged;
  hash = sum;
  now = 5;
  remap = λ size. some (λ x. 0);
  changed = λ did. true;
}

three_done :
    (c' : Conn ids) × (commit system conn ≡ some c')
    × (c'.in_trans ≡ false)
    × All (λ did. Released it_saw conn did c') (Leaf.iterate conn.db_bmp 0)
unfolding Leaf.iterate word_ids for_each
three_done =
    commit-Released system conn refl ((changes.trans, refl, refl), tt)
      (
        (
          changes.trans,
          refl,
          ((with_two.changed.lists, with_two.changed.listed, with_two.changed.marked), tt),
        ),
        tt,
      )
