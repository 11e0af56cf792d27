-- ===== src/Store/Sizes.antt =====
-- The sizes and offsets of the block store, in 32 bits as `xdb_stg_truncate` and `XDB_IDPTR` compute them.
use native.Mathlib.Nat.{mul-le-mul_left, mul_comm, mod-eq_of_lt}
use cross_db.Base.{
  ℕ, ◌+◌, ◌*◌, ◌%◌, ◌^◌, ◌<◌, ◌≤◌, ◌≡◌, refl, false, ◌==◌, arith, Option, none, some, if_both,
  eq→==, [], List,
}
use cross_db.Store.{Stg, Row, Memory, size_of, alloc, alloc_new, taken, truncate, id_ptr}
use cross_db.Store.Valid.{IsValid, InRange}
use cross_db.Store.Laws.{alloc_at_0}

-- What is mapped is what the capacity needs, and it is below 4 GiB.
pub record IsMapped (s : Stg) : Type 0 where
  pub size : s.mapped ≡ s.blk_off + s.blk_size * s.cap
  pub small : s.blk_off + s.blk_size * s.cap < 2 ^ 32

-- The next size is below 4 GiB, too.
abbrev pub HasRoom : Stg → Type 0
HasRoom s = s.blk_off + s.blk_size * (s.cap * 2) < 2 ^ 32

-- While the store's size is below 4 GiB and mapped, `XDB_IDPTR` of an id up to the capacity points
-- behind the header, and the block ends inside the mapping.
pub row_in_bounds :
    (s : Stg) (id : ℕ)
    → IsMapped s
    → InRange s.cap id
    → (s.blk_off ≤ id_ptr s id) × (id_ptr s id + s.blk_size ≤ s.mapped)
unfolding id_ptr
row_in_bounds s id m h =
    let low : s.blk_size * 1 ≤ s.blk_size * id = mul-le-mul_left s.blk_size (omega (arith, h.0)) in
    let high : s.blk_size * id ≤ s.blk_size * s.cap = mul-le-mul_left s.blk_size h.1 in
    let same : id * s.blk_size ≡ s.blk_size * id = mul_comm id s.blk_size in
    (omega (arith, low, high, same, m.small), omega (arith, low, high, same, m.small, m.size))

-- While the store's size is below 4 GiB and mapped, the blocks of two ids up to the capacity do not
-- overlap.
pub rows_apart :
    (s : Stg) (i j : ℕ)
    → IsMapped s
    → InRange s.cap i
    → InRange s.cap j
    → i < j
    → id_ptr s i + s.blk_size ≤ id_ptr s j
unfolding id_ptr
rows_apart s i j m hi hj lt =
    let low : s.blk_size * 1 ≤ s.blk_size * i = mul-le-mul_left s.blk_size (omega (arith, hi.0)) in
    let next : s.blk_size * (i + 1) ≤ s.blk_size * j =
      mul-le-mul_left s.blk_size (omega (arith, lt)) in
    let high : s.blk_size * j ≤ s.blk_size * s.cap = mul-le-mul_left s.blk_size hj.1 in
    let same_i : i * s.blk_size ≡ s.blk_size * i = mul_comm i s.blk_size in
    let same_j : j * s.blk_size ≡ s.blk_size * j = mul_comm j s.blk_size in
    omega (arith, low, next, high, same_i, same_j, m.small)

-- `xdb_stg_alloc` keeps the mapped size equal to what the capacity needs and below 4 GiB, as long
-- as twice the capacity needs less than 4 GiB.
pub alloc-IsMapped : (s : Stg) (mem : Memory) → IsMapped s → HasRoom s → IsMapped (alloc s mem).1
unfolding alloc alloc_new taken truncate size_of
alloc-IsMapped s mem m room =
    if_both (λ (r : Option ℕ × Stg). IsMapped r.1) s.no_alloc _ _ m
      (if_both (λ (r : Option ℕ × Stg). IsMapped r.1) (s.head == 0) _ _
        (if_both (λ o. IsMapped (alloc_new o (none, s)).1) (s.maxid == s.cap) _ _ (more mem)
          (record { size = m.size; small = m.small }))
        (record { size = m.size; small = m.small }))
  where
    below : s.blk_off + s.blk_size * (s.cap * 2 % 2 ^ 32) < 2 ^ 32
    below =
        let less : s.blk_size * (s.cap * 2 % 2 ^ 32) ≤ s.blk_size * (s.cap * 2) =
          mul-le-mul_left s.blk_size (omega arith) in
        omega (arith, less, room)

    more : (mem : Memory) → IsMapped (alloc_new (truncate s (s.cap * 2 % 2 ^ 32) mem) (none, s)).1
    more none = m
    more (some fresh) = record { size = mod-eq_of_lt below; small = below }

-- When `xdb_stg_alloc` doubles a valid store that is full, with a capacity below 2 ^ 30, to 4 GiB or more,
-- allocation allowed and memory there, it gives out the next block as if all was well, but less is mapped than the new
-- capacity needs.
pub alloc_overflows :
    (s : Stg) (live : List ℕ) (fresh : ℕ → Row)
    → s.no_alloc ≡ false
    → IsValid s live []
    → s.maxid ≡ s.cap
    → s.cap < 2 ^ 30
    → 2 ^ 32 ≤ s.blk_off + s.blk_size * (s.cap * 2)
    → ((alloc s (some fresh)).0 ≡ some (s.maxid + 1))
      × ((alloc s (some fresh)).1.mapped < s.blk_off + s.blk_size * (alloc s (some fresh)).1.cap)
unfolding truncate alloc_new taken size_of
alloc_overflows s live fresh ok v full small big =
    let twice : s.cap * 2 % 2 ^ 32 ≡ s.cap * 2 = omega arith in
    rw (alloc_at_0 s (some fresh) ok (eq→== s.head 0 v.chain), eq→== s.maxid s.cap full, twice)
      (refl, omega (arith, big))
