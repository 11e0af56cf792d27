-- ===== src/Wal/Flush.antt =====
-- The two logs of a database: `__xdb_wal_flush` and `xdb_wal_switch`, and what `xdb_flush_db` of
-- core/xdb_db.c does with them.
use mathlib.Core.Option
use mathlib.Core.List.{append-nil}
use cross_db.Base.{
  ℕ, ◌+◌, ◌*◌, ◌≤◌, ◌≡◌, ◌≢◌, refl, sym, ap, subst, ◌∙◌, Bool, true, false, ltb, leb, arith,
  if◌then◌else◌, Option, some, List, [], ◌++◌, inl, inr, Bool-cases, ltb→lt, leb→le,
}
use cross_db.Wal.{Walm, put, init}
use cross_db.Wal.Bytes.{Mem, write, le, get64, get64-write, get64-below, write-append}
use cross_db.Wal.Iterate.{is_whole}
use cross_db.Wal.Log.{Commit}
use cross_db.Wal.Rows.{with_mem, put-fits}
use cross_db.Wal.Commit.{Filled, Filled-short}

-- `__xdb_wal_flush`
unfoldable pub flush : Walm → Option Walm
flush w =
    put
      (record w {
        wal = record w.wal { sync_size = 184; commit_size = 184; sync_cid = w.wal.commit_id };
      })
      152 (le 8 0 ++ le 8 0)

-- The two logs of a database: `pWalm` and `pWalmBak`.
pub record Wals : Type 0 where
  pub active : Walm
  pub backup : Walm

-- `xdb_wal_switch`
unfoldable pub switch : Wals → Bool × Wals
switch ws =
    if ltb 184 ws.backup.wal.commit_size
    then (true, ws)
    else if leb ws.active.wal.commit_size 184
    then (false, ws)
    else (
      true,
      record {
        active = record ws.backup {
          wal = record ws.backup.wal {
            wal_active = true;
            rollback_count = ws.active.wal.rollback_count;
            commit_id = ws.active.wal.commit_id;
          };
        };
        backup = record ws.active { wal = record ws.active.wal { wal_active = false } };
      },
    )

-- `xdb_flush_db` of a database that was changed, for its logs: the tables are flushed in between.
unfoldable pub flush_db : Wals → Option Wals
flush_db ws =
    let (switched, vs) = switch ws in
    if switched then Option.map (λ b. record vs { backup = b }) (flush vs.backup) else some vs

-- `__xdb_wal_flush` empties the log and keeps the id of the last commit.
pub flush-Filled :
    (hash : List ℕ → ℕ) (known : ℕ → Bool) (w : Walm)
    → 168 ≤ w.mapped
    → (w' : Walm) × (flush w ≡ some w')
      × (w'.wal.commit_id ≡ w.wal.commit_id)
      × (w'.wal.commit_size ≡ 184)
      × Filled hash known w'.wal []
unfolding flush
flush-Filled hash known w room =
    let m = write w.wal.mem 152 (le 8 0 ++ le 8 0) in
    let v : Walm = record w {
      wal = record w.wal { sync_size = 184; commit_size = 184; sync_cid = w.wal.commit_id };
    } in
    (
      with_mem v m,
      put-fits v 152 (le 8 0 ++ le 8 0) room,
      refl,
      refl,
      (
        refl,
        ap (λ (x : Mem). get64 x 152) (write-append w.wal.mem 152 (le 8 0) (le 8 0))
            ∙ get64-below _ 152 160 (le 8 0) (omega arith)
            ∙ get64-write w.wal.mem 152 0 (omega arith),
      ),
    )

-- `xdb_init_wal` of a new file gives an empty log.
pub init-Filled :
    (hash : List ℕ → ℕ) (known : ℕ → Bool) (w : Walm) (cap : ℕ)
    → 160 ≤ w.mapped
    → (w' : Walm) × (init w 0 cap ≡ some w') × Filled hash known w'.wal []
unfolding init
init-Filled hash known w cap room =
    let v : Walm = record w {
      wal = record w.wal { wal_size = 184 + cap * 4096; commit_size = 184; sync_size = 184 };
    } in
    (
      with_mem v (write w.wal.mem 152 (le 8 0)),
      put-fits v 152 (le 8 0) room,
      (refl, get64-write w.wal.mem 152 0 (omega arith)),
    )

-- `xdb_wal_switch` of two logs with commits, of which the first is the active one: the commits of the backup
-- log and then those of the active log are the same as before, and the first log is active still. It
-- returns whether the backup log has commits to flush; if the backup log was empty, the active log is
-- empty afterwards. The ids and the count of rollbacks go on in the active log.
pub switch_lem :
    (hash : List ℕ → ℕ) (known : ℕ → Bool) (ws : Wals) (cs bs : List Commit)
    → Filled hash known ws.active.wal cs
    → Filled hash known ws.backup.wal bs
    → ws.active.wal.wal_active ≡ true
    → ws.backup.wal.wal_active ≡ false
    → (cs' : List Commit) × (bs' : List Commit) × Filled hash known (switch ws).1.active.wal cs'
      × Filled hash known (switch ws).1.backup.wal bs'
      × (bs' ++ cs' ≡ bs ++ cs)
      × ((switch ws).0 ≡ ltb 184 (switch ws).1.backup.wal.commit_size)
      × (bs ≡ [] → cs' ≡ [])
      × ((switch ws).1.active.wal.wal_active ≡ true)
      × ((switch ws).1.backup.wal.wal_active ≡ false)
      × ((switch ws).1.active.wal.commit_id ≡ ws.active.wal.commit_id)
      × ((switch ws).1.active.wal.rollback_count ≡ ws.active.wal.rollback_count)
unfolding switch is_whole
switch_lem hash known ws cs bs fa fb aa ab = elim (Bool-cases (ltb 184 ws.backup.wal.commit_size)) [
  | inl e ↦
      let full : bs ≢ [] = λ i. omega (
        arith,
        ltb→lt 184 ws.backup.wal.commit_size e,
        (subst (λ v. Filled hash known ws.backup.wal v) i fb).0,
      ) in
      rw e (cs, bs, fa, fb, refl, sym e, λ i. absurd (full i), aa, ab, refl, refl)
  | inr e ↦
      let bs_eq : bs ≡ [] = Filled-short hash known ws.backup.wal bs fb (ground (arith, e)) in
      elim (Bool-cases (leb ws.active.wal.commit_size 184)) [
        | inl k ↦
            let cs_eq : cs ≡ [] = Filled-short hash known ws.active.wal cs fa (leb→le _ _ k) in
            rw (e, k) (cs, bs, fa, fb, refl, sym e, λ i. cs_eq, aa, ab, refl, refl)
        | inr k ↦
            let large : true ≡ ltb 184 ws.active.wal.commit_size = ground (arith, k) in
            rw (e, k)
              (bs, cs, fb, fa, rw bs_eq (append-nil cs), large, λ i. i, refl, refl, refl, refl)
      ]
]
