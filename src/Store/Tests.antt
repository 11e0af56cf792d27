-- ===== src/Store/Tests.antt =====
-- Runs of the block store, and the theorems at them.
use cross_db.Base.{ℕ, ◌+◌, ◌*◌, ◌^◌, ◌<◌, ◌≤◌, ◌≡◌, refl, none, some, [], ◌∷◌, arith, true, false}
use cross_db.Store.{Stg, Row, zero_row, alloc, free, truncate, id_ptr}
use cross_db.Store.Valid.{IsValid}
use cross_db.Store.Laws.{Allocated, alloc_queued, alloc_fresh}
use cross_db.Store.Free.{free_lem}
use cross_db.Store.Sizes.{IsMapped, row_in_bounds, rows_apart, alloc-IsMapped, alloc_overflows}

abbrev memory : ℕ → Row
memory id = zero_row

-- Blocks of 64 bytes with the control byte at 60, two of them, none in use.
abbrev empty : ℕ → Stg
empty cap = record {
  blk_size = 64;
  blk_off = 128;
  ctl_off = 60;
  no_alloc = false;
  clear = true;
  head = 0;
  tail = 0;
  count = 0;
  maxid = 0;
  cap = cap;
  rows = memory;
  mapped = 128 + 64 * cap;
}

-- Two blocks in use.
abbrev two : Stg
two = record (empty 2) { count = 2; maxid = 2 }

two-IsValid : IsValid two (1 ∷ 2 ∷ []) []
two-IsValid = record {
  chain = refl;
  last = refl;
  distinct = ((λ e. omega (arith, e), tt), (tt, tt));
  in_range = ((omega arith, omega arith), ((omega arith, omega arith), tt));
  all_ids = refl;
  counted = refl;
  cap_pos = omega arith;
  fits = omega arith;
}

two-IsMapped : IsMapped two
two-IsMapped = record { size = refl; small = omega arith }

full_run : (alloc two (some memory)).0 ≡ some 3
unfolding alloc truncate
full_run = refl

-- The block that was freed first is given out first.
reuse_run : (alloc (free (free two 2) 1) none).0 ≡ some 2
unfolding alloc free
reuse_run = refl

alloc_fresh_example : Allocated two (1 ∷ 2 ∷ []) [] 3 [] (alloc two (some memory))
alloc_fresh_example =
    alloc_fresh two (1 ∷ 2 ∷ []) memory refl two-IsValid (λ e. (omega arith, omega arith))

free_lem_example : IsValid (free two 1) (2 ∷ []) (1 ∷ [])
free_lem_example = free_lem two 1 [] (2 ∷ []) [] two-IsValid

alloc_queued_example : Allocated (free two 1) (2 ∷ []) (1 ∷ []) 1 [] (alloc (free two 1) none)
unfolding free
alloc_queued_example =
    alloc_queued (free two 1) (2 ∷ []) [] 1 none refl (free_lem two 1 [] (2 ∷ []) [] two-IsValid)

row_in_bounds_example : (128 ≤ id_ptr two 2) × (id_ptr two 2 + 64 ≤ 256)
row_in_bounds_example = row_in_bounds two 2 two-IsMapped (omega arith, omega arith)

rows_apart_example : id_ptr two 1 + 64 ≤ id_ptr two 2
rows_apart_example =
    rows_apart two 1 2 two-IsMapped (omega arith, omega arith) (omega arith, omega arith)
      (omega arith)

alloc-IsMapped_example : IsMapped (alloc two (some memory)).1
alloc-IsMapped_example = alloc-IsMapped two (some memory) two-IsMapped (omega arith)

-- One block of 2 GiB in use.
abbrev large : Stg
large = record (empty 1) { blk_size = 2 ^ 31; count = 1; maxid = 1; mapped = 128 + 2 ^ 31 }

large-IsValid : IsValid large (1 ∷ []) []
large-IsValid = record {
  chain = refl;
  last = refl;
  distinct = (tt, tt);
  in_range = ((omega arith, omega arith), tt);
  all_ids = refl;
  counted = refl;
  cap_pos = omega arith;
  fits = omega arith;
}

alloc_overflows_example :
    ((alloc large (some memory)).0 ≡ some 2)
    × ((alloc large (some memory)).1.mapped < 128 + 2 ^ 31 * (alloc large (some memory)).1.cap)
unfolding alloc truncate
alloc_overflows_example =
    alloc_overflows large (1 ∷ []) memory refl large-IsValid refl (omega arith) (omega arith)
