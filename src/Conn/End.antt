-- ===== src/Conn/End.antt =====
-- `xdb_commit` and `xdb_rollback` end the transaction of a connection in all its databases.
use mathlib.Core.Option
use cross_db.Base.{
  ℕ, ◌≡◌, ◌≢◌, refl, sym, ap, ◌∙◌, Bool, true, false, if◌then◌else◌, not, Option, none, some, List,
  [], ◌∷◌, All, NotIn, Distinct, update, update-same, update-other, subst,
}
use cross_db.Bmp.Leaf
use cross_db.Bmp.Leaf.{Leaf}
use cross_db.Bmp.Leaf.Each.{iterate-Distinct}
use cross_db.Index.{IdxOps}
use cross_db.Trans.{DbTrans, row_valid, init_db}
use cross_db.Wal.{try_all}
use cross_db.Conn.{
  Changes, Conn, Db, System, db_commit, db_rollback, wal_step, db_end, db_unlock, unlock, commit,
  rollback,
}
use cross_db.Conn.Tables.{Ready, Shows, listed, db_commit_lem, db_rollback_lem}

-- A callback that does at `i` what makes `Q` of `P`, and keeps both elsewhere, and what `key` reads.
abbrev Works :
    {S K : Type 0} → (S → K) → (S → ℕ → Option S) → (ℕ → S → Type 0) → (ℕ → S → Type 0) → Type 0
Works {S} key step P Q =
    (s : S) (i : ℕ)
    → P i s
    → (s' : S) × (step s i ≡ some s')
      × (key s' ≡ key s)
      × Q i s'
      × ((j : ℕ) → j ≢ i → (P j s → P j s') × (Q j s → Q j s'))

carry :
    {S : Type 0} (P : ℕ → S → Type 0) (s s' : S) (i : ℕ) (ids : List ℕ)
    → NotIn i ids
    → ((j : ℕ) → j ≢ i → P j s → P j s')
    → All (λ j. P j s) ids
    → All (λ j. P j s') ids
carry P s s' i [] n f h = tt
carry P s s' i (x ∷ xs) n f h = (f x (λ e. n.0 (sym e)) h.0, carry P s s' i xs n.1 f h.1)

each :
    {S K : Type 0} (key : S → K) (step : S → ℕ → Option S) (P Q : ℕ → S → Type 0)
    → Works key step P Q
    → (s : S) (ids : List ℕ) → Distinct ids
    → All (λ j. P j s) ids
    → (s' : S) × (try_all step s ids ≡ some s')
      × (key s' ≡ key s)
      × All (λ j. Q j s') ids
      × ((j : ℕ) → NotIn j ids → Q j s → Q j s')
unfolding try_all Option.bind
each key step P Q works s [] d h = (s, refl, refl, tt, λ j n q. q)
each key step P Q works s (x ∷ xs) d h =
    let (s1, eq, k1, qx, other) = works s x h.0 in
    let later = carry P s s1 x xs d.0 (λ j ne. (other j ne).0) h.1 in
    let (s2, eq2, k2, qs, keep) = each key step P Q works s1 xs d.1 later in
    (s2, rw eq eq2, k2 ∙ k1, (keep x d.0 qx, qs), λ j n q. keep j n.1 ((other j n.0).1 q))

-- The tables of a database with its transaction in a connection.
abbrev pub of_db : {o : IdxOps} → Conn o → ℕ → DbTrans → Changes o
of_db c did d = record { tables = (c.dbs did).tables; trans = d }

-- The transaction has lists of the database, and each of its tables has lists that are marked.
abbrev pub DbReady : {o : IdxOps} → Conn o → ℕ → Type 0
DbReady c did =
    (d : DbTrans) × (c.db_trans did ≡ some d) × All (Ready (of_db c did d)) (listed (of_db c did d))

-- In `s`, those without a transaction see of the tables that changed in the database what `view` tells.
abbrev pub Shown :
    {o : IdxOps} → (Changes o → ℕ → ℕ → Option Bool) → Conn o → Conn o → ℕ → DbTrans → Type 0
Shown view c s did d =
    All (λ tid. Shows ((s.dbs did).tables tid) tid (view (of_db c did d) tid))
      (listed (of_db c did d))

-- In `s` the lists of the database are empty, and those without a transaction see what `view` tells.
abbrev pub Released :
    {o : IdxOps} → (Changes o → ℕ → ℕ → Option Bool) → Conn o → ℕ → Conn o → Type 0
Released view c did s =
    (d d' : DbTrans) × (c.db_trans did ≡ some d)
    × (s.db_trans did ≡ some (init_db d'))
    × Shown view c s did d

-- What those without a transaction saw before, and what the connection saw.
abbrev pub others_saw : {o : IdxOps} → Changes o → ℕ → ℕ → Option Bool
others_saw x tid = row_valid (x.tables tid) none tid

abbrev pub it_saw : {o : IdxOps} → Changes o → ℕ → ℕ → Option Bool
it_saw x tid = row_valid (x.tables tid) (some x.trans) tid

module _ {o : IdxOps} (f : Changes o → Option (Changes o)) (view : Changes o → ℕ → ℕ → Option Bool)
    (law : (x : Changes o)
      → All (Ready x) (listed x)
      → (r : Changes o) × (f x ≡ some r)
        × All (λ tid. Shows (r.tables tid) tid (view x tid)) (listed x)
        × ((tid : ℕ) → NotIn tid (listed x) → r.tables tid ≡ x.tables tid))
    (c : Conn o) where
  abbrev listing : Conn o → Leaf
  listing s = s.db_bmp

  abbrev Waiting : ℕ → Conn o → Type 0
  Waiting did s = (s.dbs did ≡ c.dbs did) × (s.db_trans did ≡ c.db_trans did) × DbReady c did

  abbrev AtEnd : ℕ → Conn o → Type 0
  AtEnd did s =
      (d d' : DbTrans) × (c.db_trans did ≡ some d)
      × (s.db_trans did ≡ some d')
      × Shown view c s did d

  db_end-AtEnd : Works listing (db_end f) Waiting AtEnd
  unfolding Option.bind db_end
  db_end-AtEnd s i h =
      let (same_db, same_trans, more) = h in
      let (d, has, ready) = more in
      let (r, runs, shows, others) = law (of_db c i d) ready in
      let db : Db o = record (s.dbs i) { tables = r.tables } in
      let s' : Conn o = record s {
        dbs = update s.dbs i db;
        db_trans = update s.db_trans i (some r.trans);
      } in
      let at = update-same s.dbs i db in
      let ran : f (record { tables = (s.dbs i).tables; trans = d }) ≡ some r =
        subst (λ (x : Db o). f (record { tables = x.tables; trans = d }) ≡ some r) (sym same_db)
          runs in
      let eq : db_end f s i ≡ some s' = rw (db_end, same_trans, has, ran) refl in
      (
        s',
        eq,
        refl,
        (
          d,
          r.trans,
          has,
          update-same s.db_trans i (some r.trans),
          subst
              (λ (x : Db o).
                All (λ tid. Shows (x.tables tid) tid (view (of_db c i d) tid))
                  (listed (of_db c i d)))
              (sym at) shows,
        ),
        λ j ne.
            let db_other = update-other s.dbs i j db ne in
            let tr_other = update-other s.db_trans i j (some r.trans) ne in
            (
              λ p. (db_other ∙ p.0, tr_other ∙ p.1, p.2),
              λ q.
                  let (e, e', he, he', shown) = q in
                  (
                    e,
                    e',
                    he,
                    tr_other ∙ he',
                    subst
                        (λ (x : Db o).
                          All (λ tid. Shows (x.tables tid) tid (view (of_db c j e) tid))
                            (listed (of_db c j e)))
                        (sym db_other) shown,
                  ),
            ),
      )

  db_unlock-Released : Works listing db_unlock AtEnd (Released view c)
  unfolding db_unlock
  db_unlock-Released s i h =
      let (d, d', has, now, shown) = h in
      let s' : Conn o = record s { db_trans = update s.db_trans i (some (init_db d')) } in
      let eq : db_unlock s i ≡ some s' = rw (db_unlock, now) refl in
      (
        s',
        eq,
        refl,
        (d, d', has, update-same s.db_trans i (some (init_db d')), shown),
        λ j ne.
            let other = update-other s.db_trans i j (some (init_db d')) ne in
            (
              λ q. let (e, e', he, he', shows) = q in (e, e', he, other ∙ he', shows),
              λ q. let (e, e', he, he', shows) = q in (e, e', he, other ∙ he', shows),
            ),
      )

  starts : (ids : List ℕ) → All (DbReady c) ids → All (λ j. Waiting j c) ids
  starts [] h = tt
  starts (x ∷ xs) h = ((refl, refl, h.0), starts xs h.1)

  ends :
      All (DbReady c) (Leaf.iterate c.db_bmp 0)
      → (c1 c2 : Conn o) × (try_all (db_end f) c (Leaf.iterate c.db_bmp 0) ≡ some c1)
        × (try_all db_unlock c1 (Leaf.iterate c1.db_bmp 0) ≡ some c2)
        × All (λ did. Released view c did c2) (Leaf.iterate c.db_bmp 0)
  ends h =
      let ids = Leaf.iterate c.db_bmp 0 in
      let once = iterate-Distinct c.db_bmp 0 in
      let (c1, eq1, same, ended, keep1) =
        each listing (db_end f) Waiting AtEnd db_end-AtEnd c ids once (starts ids h) in
      let (c2, eq2, same2, out, keep2) =
        each listing db_unlock AtEnd (Released view c) db_unlock-Released c1 ids once ended in
      (c1, c2, eq1, ap (λ (l : Leaf). try_all db_unlock c1 (Leaf.iterate l 0)) same ∙ eq2, out)

unlock_eq :
    {o : IdxOps} (c c' : Conn o)
    → try_all db_unlock c (Leaf.iterate c.db_bmp 0) ≡ some c'
    → unlock c ≡ some (record c' { in_trans = false; auto_trans = false })
unfolding unlock
unlock_eq c c' e = rw e refl

rollback_eq :
    {o : IdxOps} (c c1 : Conn o)
    → c.in_trans ≡ true
    → try_all (db_end db_rollback) c (Leaf.iterate c.db_bmp 0) ≡ some c1
    → rollback c ≡ unlock c1
unfolding rollback Option.bind
rollback_eq {o} c c1 begun e =
    ap
      (λ b.
        if not b
        then some c
        else Option.bind (try_all (db_end db_rollback) c (Leaf.iterate c.db_bmp 0)) unlock)
      begun
    ∙ ap (λ (r : Option (Conn o)). Option.bind r unlock) e

wal_step-memory :
    {o : IdxOps} (sys : System o) (c : Conn o) (x : ℕ) (d : DbTrans)
    → c.db_trans x ≡ some d
    → (c.dbs x).in_memory ≡ true
    → wal_step sys c x ≡ some c
unfolding wal_step Option.bind
wal_step-memory sys c x d has mem = rw (wal_step, has, mem) refl

stays :
    {o : IdxOps} (sys : System o) (c : Conn o) (ids : List ℕ)
    → All (λ did. (d : DbTrans) × (c.db_trans did ≡ some d) × ((c.dbs did).in_memory ≡ true)) ids
    → try_all (wal_step sys) c ids ≡ some c
unfolding try_all Option.bind
stays sys c [] h = refl
stays sys c (x ∷ xs) h =
    let (d, has, mem) = h.0 in
    let first : wal_step sys c x ≡ some c = wal_step-memory sys c x d has mem in
    rw first (stays sys c xs h.1)

commit_eq :
    {o : IdxOps} (sys : System o) (c c1 : Conn o)
    → c.in_trans ≡ true
    → try_all (wal_step sys) c (Leaf.iterate c.db_bmp 0) ≡ some c
    → try_all (db_end db_commit) c (Leaf.iterate c.db_bmp 0) ≡ some c1
    → commit sys c ≡ unlock c1
unfolding commit Option.bind
commit_eq {o} sys c c1 begun logs e =
    ap
      (λ b.
        if not b
        then some c
        else Option.bind (try_all (wal_step sys) c (Leaf.iterate c.db_bmp 0))
            λ x. Option.bind (try_all (db_end db_commit) x (Leaf.iterate c.db_bmp 0)) unlock)
      begun
    ∙ ap
        (λ (r : Option (Conn o)).
          Option.bind r
            λ x. Option.bind (try_all (db_end db_commit) x (Leaf.iterate c.db_bmp 0)) unlock)
        logs
    ∙ ap (λ (r : Option (Conn o)). Option.bind r unlock) e

-- `xdb_rollback` of a connection in a transaction, where the transaction has lists of each database
-- listed and in it each table listed has lists that are marked: no NULL is read; the connection is then
-- in no transaction, and of each database listed the transaction is set to its start and those without a
-- transaction see of the rows below 2 ^ 31 of each table listed what they saw before.
pub rollback-Released :
    {o : IdxOps} (c : Conn o)
    → c.in_trans ≡ true
    → All (DbReady c) (Leaf.iterate c.db_bmp 0)
    → (c' : Conn o) × (rollback c ≡ some c')
      × (c'.in_trans ≡ false)
      × All (λ did. Released others_saw c did c') (Leaf.iterate c.db_bmp 0)
unfolding Option.bind
rollback-Released {o} c begun h =
    let (c1, c2, eq1, eq2, out) = ends db_rollback others_saw db_rollback_lem c h in
    (
      record c2 { in_trans = false; auto_trans = false },
      rollback_eq c c1 begun eq1 ∙ unlock_eq c1 c2 eq2,
      refl,
      out,
    )

-- `xdb_commit` of a connection in a transaction, where the databases listed are in memory, the
-- transaction has lists of each and in it each table listed has lists that are marked: no NULL is read;
-- the connection is then in no transaction, and of each database listed the transaction is set to its
-- start and those without a transaction see of the rows below 2 ^ 31 of each table listed what the
-- connection saw before.
pub commit-Released :
    {o : IdxOps} (sys : System o) (c : Conn o)
    → c.in_trans ≡ true
    → All
        (λ did. (d : DbTrans) × (c.db_trans did ≡ some d) × ((c.dbs did).in_memory ≡ true))
        (Leaf.iterate c.db_bmp 0)
    → All (DbReady c) (Leaf.iterate c.db_bmp 0)
    → (c' : Conn o) × (commit sys c ≡ some c')
      × (c'.in_trans ≡ false)
      × All (λ did. Released it_saw c did c') (Leaf.iterate c.db_bmp 0)
unfolding Option.bind
commit-Released {o} sys c begun memory h =
    let (c1, c2, eq1, eq2, out) = ends db_commit it_saw db_commit_lem c h in
    (
      record c2 { in_trans = false; auto_trans = false },
      commit_eq sys c c1 begun (stays sys c (Leaf.iterate c.db_bmp 0) memory) eq1
          ∙ unlock_eq c1 c2 eq2,
      refl,
      out,
    )
