-- ===== src/Vdata/Tests.antt =====
-- Runs of the size classes, and the theorems at concrete inputs.
use cross_db.Base.{ℕ, ◌+◌, ◌*◌, ◌^◌, ◌<◌, ◌≤◌, ◌≡◌, ◌≢◌, ◌↔◌, ◌⊎◌, refl, false, none, some, arith}
use cross_db.Store
use cross_db.Store.{Stg, Row}
use cross_db.Vdata.{type_of, vdat_4k, size_at, find, nth, ref, free}
use cross_db.Vdata.Sizes.{type_of-fits, type_of-defined}
use cross_db.Vdata.Refs.{Unchanged, ref-free_lem, ref-overflows}

type_100 : type_of 100 ≡ some 6
unfolding type_of find nth vdat_4k size_at
type_100 = refl

-- Exactly 4096 bytes are asked of an entry that is not there.
type_4096 : type_of 4096 ≡ none
unfolding type_of vdat_4k
type_4096 = refl

type_of-fits_example : 100 ≤ size_at 6
type_of-fits_example = type_of-fits 100 6 type_100

type_of-defined_example : (type_of 4096 ≢ none) ↔ (
    (4096 < 4096)
    ⊎ ((4096 < 4096) × (4096 < 252 * 1024))
    ⊎ ((256 * 1024 < 4096) × (4096 < 252 * 65536)))
type_of-defined_example = type_of-defined 4096

-- One block in use, with the first word given.
abbrev one : ℕ → Stg
one word = record {
  blk_size = 64;
  blk_off = 96;
  ctl_off = 0;
  no_alloc = false;
  clear = false;
  head = 0;
  tail = 0;
  count = 1;
  maxid = 1;
  cap = 8;
  rows = λ id. record { next = word; ctrl = 0; payload = id };
  mapped = 608;
}

ref-free_lem_example : Unchanged (one (8 * 2 ^ 28 + 40)) (free (ref (one (8 * 2 ^ 28 + 40)) 1) 1)
ref-free_lem_example =
    ref-free_lem (one (8 * 2 ^ 28 + 40)) 1 (omega arith) (omega arith) (omega arith)

ref-overflows_example :
    free (ref (one (15 * 2 ^ 28 + 40)) 1) 1 ≡ Store.free (ref (one (15 * 2 ^ 28 + 40)) 1) 1
ref-overflows_example = ref-overflows (one (15 * 2 ^ 28 + 40)) 1 (omega arith) refl
