-- ===== src/Trans/Rows.antt =====
-- What the callbacks of a commit do to the rows.
use cross_db.Base.{
  ℕ, ◌<◌, ◌≤◌, ◌≡◌, ◌≢◌, refl, ◌∙◌, false, ◌==◌, if◌then◌else◌, arith, List, [], ◌∷◌,
}
use cross_db.Bmp.Scan.{contains}
use cross_db.Store.{Stg, free, row_commit}
use cross_db.Index.{IdxOps}
use cross_db.Trans.{Table, each, remove, newrow_commit, with_ctrl, ctrl_of}

-- The control byte of the last free block says that the block is free.
pub record TailFree (s : Stg) : Type 0 where
  pub ctl : 0 < s.ctl_off
  pub tail : s.tail ≢ 0 → ctrl_of (s.rows s.tail) < 2

pub free-ctrl :
    (s : Stg) (x y : ℕ)
    → 0 < s.ctl_off
    → ((free s x).rows y).ctrl ≡ (if y == x then 0 else (s.rows y).ctrl)
unfolding free
free-ctrl s x y h = ground arith

-- A row in use that is not freed stays as it is.
pub free-row :
    (s : Stg) (x y : ℕ) → TailFree s → y ≢ x → 2 ≤ ctrl_of (s.rows y) → (free s x).rows y ≡ s.rows y
unfolding free
free-row s x y v n u = ground (arith, v.tail)

pub free-TailFree : (s : Stg) (x : ℕ) → TailFree s → TailFree (free s x)
unfolding free
free-TailFree s x v = record { ctl = ground (arith, v.ctl); tail = λ n. ground (arith, v.ctl) }

module _ {o : IdxOps} where
  pub remove_all-TailFree :
      (t : Table o) (l : List ℕ) → TailFree t.stg → TailFree (each remove t l).stg
  unfolding each remove
  remove_all-TailFree t [] v = v
  remove_all-TailFree t (x ∷ l) v = remove_all-TailFree (remove t x) l (free-TailFree t.stg x v)

  pub remove_all-ctrl :
      (t : Table o) (l : List ℕ) (y : ℕ)
      → TailFree t.stg
      → ((each remove t l).stg.rows y).ctrl ≡ (if contains y l then 0 else (t.stg.rows y).ctrl)
  unfolding each contains remove
  remove_all-ctrl t [] y v = refl
  remove_all-ctrl t (x ∷ l) y v =
      let ih = remove_all-ctrl (remove t x) l y (free-TailFree t.stg x v) in
      ground (arith, ih, free-ctrl t.stg x y v.ctl)

  pub remove_all-row :
      (t : Table o) (l : List ℕ) (y : ℕ)
      → TailFree t.stg
      → contains y l ≡ false
      → 2 ≤ ctrl_of (t.stg.rows y)
      → (each remove t l).stg.rows y ≡ t.stg.rows y
  unfolding each contains remove
  remove_all-row t [] y v c u = refl
  remove_all-row t (x ∷ l) y v c u =
      let n : y ≢ x = λ e. ground (arith, c, e) in
      let same = free-row t.stg x y v n u in
      remove_all-row (remove t x) l y (free-TailFree t.stg x v) (ground (arith, c)) (rw same u)
      ∙ same

  pub commit_all-row :
      (t : Table o) (l : List ℕ) (y : ℕ)
      → (each newrow_commit t l).stg.rows y
        ≡ (if contains y l then with_ctrl row_commit (t.stg.rows y) else t.stg.rows y)
  unfolding each contains newrow_commit
  commit_all-row t [] y = refl
  commit_all-row t (x ∷ l) y = ground (arith, commit_all-row (newrow_commit t x) l y)

  -- What the callbacks do not touch.
  pub record Kept (t t' : Table o) : Type 0 where
    pub ttl : t'.ttl ≡ t.ttl
    pub now : t'.cur_ts ≡ t.cur_ts

  pub remove_all-Kept : (t : Table o) (l : List ℕ) → Kept t (each remove t l)
  unfolding each remove
  remove_all-Kept t [] = record { ttl = refl; now = refl }
  remove_all-Kept t (x ∷ l) =
      let k = remove_all-Kept (remove t x) l in record { ttl = k.ttl; now = k.now }

  pub record Same (t t' : Table o) : Type 0 where
    pub ttl : t'.ttl ≡ t.ttl
    pub now : t'.cur_ts ≡ t.cur_ts
    pub off : t'.stg.ctl_off ≡ t.stg.ctl_off
    pub tail : t'.stg.tail ≡ t.stg.tail

  pub commit_all-Same : (t : Table o) (l : List ℕ) → Same t (each newrow_commit t l)
  unfolding each newrow_commit
  commit_all-Same t [] = record { ttl = refl; now = refl; off = refl; tail = refl }
  commit_all-Same t (x ∷ l) =
      let k = commit_all-Same (newrow_commit t x) l in
      record { ttl = k.ttl; now = k.now; off = k.off; tail = k.tail }
