-- ===== src/Vdata/Refs.antt =====
-- The reference count of variable-length data.
use cross_db.Base.{ℕ, ◌+◌, ◌%◌, ◌^◌, ◌<◌, ◌≤◌, ◌≡◌, refl, true, leb, arith, eq→==, le→leb}
use cross_db.Store
use cross_db.Store.{Stg, Row}
use cross_db.Vdata.{refs, ref, free}

-- The blocks and the free list of `s` are those of `s'`.
pub record Unchanged (s s' : Stg) : Type 0 where
  pub rows : (y : ℕ) → s'.rows y ≡ s.rows y
  pub head : s'.head ≡ s.head
  pub tail : s'.tail ≡ s.tail
  pub count : s'.count ≡ s.count

free-last :
    (s : Stg) (vid : ℕ) → leb (refs (s.rows vid).next) 8 ≡ true → free s vid ≡ Store.free s vid
unfolding free
free-last s vid e = rw e refl

ref-next : (s : Stg) (vid : ℕ) → ((ref s vid).rows vid).next ≡ ((s.rows vid).next + 2 ^ 28) % 2 ^ 32
unfolding ref
ref-next s vid = rw (eq→== vid vid refl) refl

-- `xdb_vdata_free` takes back `xdb_vdata_ref` of data in use with fewer than 7 further references
-- (a word of 32 bits): the blocks and the free list are as before.
pub ref-free_lem :
    (s : Stg) (vid : ℕ)
    → (s.rows vid).next < 2 ^ 32
    → 8 ≤ refs (s.rows vid).next
    → refs (s.rows vid).next < 15
    → Unchanged s (free (ref s vid) vid)
unfolding free ref
ref-free_lem s vid w lo hi = record {
  rows = λ y. ground arith;
  head = ground arith;
  tail = ground arith;
  count = ground arith;
}

-- The counter overflows at the eighth further reference (a word of 32 bits whose count is 15):
-- after `xdb_vdata_ref`, `xdb_vdata_free` gives the block to the free list at once.
pub ref-overflows :
    (s : Stg) (vid : ℕ)
    → (s.rows vid).next < 2 ^ 32
    → refs (s.rows vid).next ≡ 15
    → free (ref s vid) vid ≡ Store.free (ref s vid) vid
ref-overflows s vid w h =
    free-last (ref s vid) vid
      (le→leb (refs ((ref s vid).rows vid).next) 8 (omega (arith, w, h, ref-next s vid)))
