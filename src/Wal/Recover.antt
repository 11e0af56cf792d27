-- ===== src/Wal/Recover.antt =====
-- `xdb_wal_redo` as a whole.
mod Tests
use mathlib.Core.Option
use cross_db.Base.{◌+◌, ◌%◌, ◌^◌, ◌<◌, ◌≤◌, sym, ◌∙◌, ◌⊎◌, true, false, Option, none, ◌∷◌, length}
use cross_db.Wal.{Wal, Entry, put}
use cross_db.Wal.Bytes.{Mem}
use cross_db.Wal.Iterate.{iterate}
use cross_db.Wal.Log.{Commit}
use cross_db.Wal.Flush.{Wals}

-- Both logs are mapped at least cs far as the end of an empty log's header.
record Mapped (ws : Wals) : Type 0 where
  pub active : 168 ≤ ws.active.mapped
  pub backup : 168 ≤ ws.backup.mapped
