-- ===== src/Store/Valid.antt =====
-- The invariant of the block store: which blocks are in use and which are free.
use cross_db.Base.{ℕ, ◌+◌, ◌<◌, ◌≤◌, ◌≡◌, List, ◌++◌, length, last_or, All, Distinct}
use cross_db.Store.{Stg}
use cross_db.Store.Chain.{Chain}

-- The ids that `xdb_stg_alloc` has given out.
abbrev pub InRange : ℕ → ℕ → Type 0
InRange n x = (0 < x) × (x ≤ n)

-- `live` are the blocks in use, in the order of allocation, and `queue` the free ones, from the one
-- that is given out next: each id up to `blk_maxid` stands in one of the two, once.
pub record IsValid (s : Stg) (live queue : List ℕ) : Type 0 where
  pub chain : Chain s.rows s.head queue
  pub last : s.tail ≡ last_or 0 queue
  pub distinct : Distinct (live ++ queue)
  pub in_range : All (InRange s.maxid) (live ++ queue)
  pub all_ids : length live + length queue ≡ s.maxid
  pub counted : s.count ≡ length live
  pub cap_pos : 0 < s.cap
  pub fits : s.maxid ≤ s.cap
