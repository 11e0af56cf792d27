-- ===== src/Conn.antt =====
-- The end of a transaction in core/xdb_trans.c: `xdb_commit` and `xdb_rollback` work off the databases
-- of a connection, and each database its tables. The locks themselves are calls of the system; what the
-- connection notes of them is here. A result `none` is a read through NULL or a write outside of the log.
pub mod End
pub mod Tables
mod Tests
use mathlib.Core.Option
use cross_db.Base.{◌&&◌, ℕ, Bool, true, false, not, if◌then◌else◌, Option, none, some, List, update}
use cross_db.Bmp.Leaf
use cross_db.Bmp.Leaf.{Leaf}
use cross_db.Index.{IdxOps}
use cross_db.Trans.{Table, TblTrans, DbTrans, init_db, tbl_commit, tbl_rollback}
use cross_db.Wal.{Walm, Remap, LogTable, try_all}
use cross_db.Wal.Write.{db_wal}
use cross_db.Wal.Flush.{Wals, flush_db}

-- The tables of a database, by their ids, and what the transaction has of them.
pub record Changes (o : IdxOps) : Type 0 where
  pub tables : ℕ → Table o
  pub trans : DbTrans

-- One table, on its commit or its rollback `f`.
unfoldable pub tbl_end :
    {o : IdxOps}
    → (Table o → TblTrans → Option (Table o × TblTrans))
    → Changes o
    → ℕ
    → Option (Changes o)
unfolding Option.bind
tbl_end f c tid = Option.bind (c.trans.tbl_trans tid) λ w.
    Option.map
      (λ r. record {
        tables = update c.tables tid r.0;
        trans = record c.trans { tbl_trans = update c.trans.tbl_trans tid (some r.1) };
      })
      (f (c.tables tid) w)

-- `xdb_trans_db_commit`
unfoldable pub db_commit : {o : IdxOps} → Changes o → Option (Changes o)
db_commit c = try_all (tbl_end tbl_commit) c (Leaf.iterate c.trans.tbl_rows 0)

-- `xdb_trans_db_rollback`
unfoldable pub db_rollback : {o : IdxOps} → Changes o → Option (Changes o)
db_rollback c = try_all (tbl_end tbl_rollback) c (Leaf.iterate c.trans.tbl_rows 0)

-- A database: whether it is in memory, `sync_mode`, its logs and its tables.
pub record Db (o : IdxOps) : Type 0 where
  pub in_memory : Bool
  pub sync_mode : ℕ
  pub wals : Wals
  pub tables : ℕ → Table o

-- `xdb_conn_t`, as far as a transaction goes, with the databases by their ids.
pub record Conn (o : IdxOps) : Type 0 where
  pub in_trans : Bool
  pub auto_trans : Bool
  pub db_bmp : Leaf
  pub db_trans : ℕ → Option DbTrans
  pub dbs : ℕ → Db o

-- How the log reads the tables of a database, `xdb_wyhash`, the time, what the log's file gives, and whether
-- `xdb_flush_db` finds a database changed.
pub record System (o : IdxOps) : Type 0 where
  pub log_tables : ℕ → (ℕ → Table o) → ℕ → LogTable
  pub hash : List ℕ → ℕ
  pub now : ℕ
  pub remap : Remap
  pub changed : ℕ → Bool

-- `xdb_trans_db_wal`, with `xdb_flush_db` of a log that has become large.
unfoldable pub wal_step : {o : IdxOps} → System o → Conn o → ℕ → Option (Conn o)
unfolding Option.bind
wal_step sys c did = Option.bind (c.db_trans did) λ d.
    let db = c.dbs did in
    if db.in_memory
    then some c
    else Option.bind
        (db_wal sys.remap sys.hash sys.now db.sync_mode (sys.log_tables did db.tables) d
          db.wals.active)
        λ r.
          let ws = record db.wals { active = r.0 } in
          Option.map (λ vs. record c { dbs = update c.dbs did (record db { wals = vs }) })
            (if r.1 && sys.changed did then flush_db ws else some ws)

-- A database on its commit or its rollback `f`.
unfoldable pub db_end :
    {o : IdxOps} → (Changes o → Option (Changes o)) → Conn o → ℕ → Option (Conn o)
unfolding Option.bind
db_end f c did = Option.bind (c.db_trans did) λ d.
    Option.map
      (λ r. record c {
        dbs = update c.dbs did (record (c.dbs did) { tables = r.tables });
        db_trans = update c.db_trans did (some r.trans);
      })
      (f (record { tables = (c.dbs did).tables; trans = d }))

-- `xdb_trans_db_unlock`
unfoldable pub db_unlock : {o : IdxOps} → Conn o → ℕ → Option (Conn o)
db_unlock c did =
    Option.map (λ d. record c { db_trans = update c.db_trans did (some (init_db d)) })
      (c.db_trans did)

-- `xdb_trans_unlock`
unfoldable pub unlock : {o : IdxOps} → Conn o → Option (Conn o)
unlock {o} c =
    Option.map {A = Conn o} (λ v. record v { in_trans = false; auto_trans = false })
      (try_all db_unlock c (Leaf.iterate c.db_bmp 0))

-- `xdb_commit` of a connection that is not a client's
unfoldable pub commit : {o : IdxOps} → System o → Conn o → Option (Conn o)
unfolding Option.bind
commit sys c =
    if not c.in_trans
    then some c
    else Option.bind (try_all (wal_step sys) c (Leaf.iterate c.db_bmp 0))
        λ c1. Option.bind (try_all (db_end db_commit) c1 (Leaf.iterate c.db_bmp 0)) unlock

-- `xdb_rollback` of a connection that is not a client's
unfoldable pub rollback : {o : IdxOps} → Conn o → Option (Conn o)
unfolding Option.bind
rollback c =
    if not c.in_trans
    then some c
    else Option.bind (try_all (db_end db_rollback) c (Leaf.iterate c.db_bmp 0)) unlock

-- `xdb_begin2` of a connection that is not a client's
unfoldable pub begin2 : {o : IdxOps} → System o → Conn o → Bool → Option (Conn o)
begin2 {o} sys c auto =
    Option.map {A = Conn o} (λ v. record v { in_trans = true; auto_trans = auto })
      (if c.in_trans then commit sys c else some c)
