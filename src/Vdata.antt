-- ===== src/Vdata.antt =====
-- core/xdb_vdata.c: the variable-length data of a table, in 76 block stores of growing block size. A
-- block's first word holds its length below bit 28, and above it 8 while it is in use plus the number
-- of further references.
pub mod Sizes
pub mod Refs
mod Tests
use cross_db.Base.{
  ℕ, zero, suc, ◌+◌, ◌-◌, ◌*◌, ◌/◌, ◌%◌, ◌^◌, Bool, true, false, ◌==◌, ltb, leb, if◌then◌else◌,
  Option, none, some, List, [], ◌∷◌, update,
}
use cross_db.Store
use cross_db.Store.{Stg, Row, Memory}

-- `s_xdb_vdat_size`
abbrev pub sizes : List ℕ
sizes =
    16
    ∷ 32
    ∷ 48
    ∷ 64
    ∷ 80
    ∷ 96
    ∷ 112
    ∷ 128
    ∷ 160
    ∷ 192
    ∷ 224
    ∷ 256
    ∷ 320
    ∷ 384
    ∷ 448
    ∷ 512
    ∷ 640
    ∷ 768
    ∷ 896
    ∷ 1024
    ∷ 1280
    ∷ 1536
    ∷ 1792
    ∷ 2048
    ∷ 2560
    ∷ 3072
    ∷ 3584
    ∷ 4096
    ∷ 5 * 1024
    ∷ 6 * 1024
    ∷ 7 * 1024
    ∷ 8 * 1024
    ∷ 10 * 1024
    ∷ 12 * 1024
    ∷ 14 * 1024
    ∷ 16 * 1024
    ∷ 20 * 1024
    ∷ 24 * 1024
    ∷ 28 * 1024
    ∷ 32 * 1024
    ∷ 40 * 1024
    ∷ 48 * 1024
    ∷ 56 * 1024
    ∷ 64 * 1024
    ∷ 80 * 1024
    ∷ 96 * 1024
    ∷ 112 * 1024
    ∷ 128 * 1024
    ∷ 160 * 1024
    ∷ 192 * 1024
    ∷ 224 * 1024
    ∷ 256 * 1024
    ∷ 320 * 1024
    ∷ 384 * 1024
    ∷ 448 * 1024
    ∷ 512 * 1024
    ∷ 640 * 1024
    ∷ 768 * 1024
    ∷ 896 * 1024
    ∷ 1024 * 1024
    ∷ 1280 * 1024
    ∷ 1536 * 1024
    ∷ 1792 * 1024
    ∷ 2048 * 1024
    ∷ 2560 * 1024
    ∷ 3072 * 1024
    ∷ 3584 * 1024
    ∷ 4096 * 4096
    ∷ 5 * 1024 * 1024
    ∷ 6 * 1024 * 1024
    ∷ 7 * 1024 * 1024
    ∷ 8 * 1024 * 1024
    ∷ 10 * 1024 * 1024
    ∷ 12 * 1024 * 1024
    ∷ 14 * 1024 * 1024
    ∷ 16 * 1024 * 1024
    ∷ []

nth : List ℕ → ℕ → ℕ
nth [] i = 0
nth (x ∷ xs) i = elim (i == 0) [ true ↦ x | false ↦ nth xs (i - 1) ]

-- `s_xdb_vdat_size[i]`, 0 out of the array.
unfoldable pub size_at : ℕ → ℕ
unfolding nth
size_at i = nth sizes i

-- The loop of `xdb_vdat_find`, with `n` rounds left. At `mid` 0 the source reads in front of the array
-- (that is 0 here), which it does for sizes below 16 only.
pub find_from : ℕ → ℕ → ℕ → ℕ → ℕ
find_from zero size min max = max
find_from (suc n) size min max =
    let mid = (min + max) / 2 in
    elim (ltb min max) [
      | false ↦ max
      | true ↦ elim (size == size_at mid) [
        | true ↦ mid
        | false ↦ elim (ltb (size_at mid) size) [
          | true ↦ find_from n size (mid + 1) max
          | false ↦ elim (ltb (if mid == 0 then 0 else size_at (mid - 1)) size) [
            | true ↦ mid
            | false ↦ find_from n size min (mid - 1)
          ]
        ]
      ]
    ]

-- `xdb_vdat_find`: each round halves the 76 entries.
unfoldable pub find : ℕ → ℕ
unfolding find_from
find size = find_from 8 size 0 75

-- `s_xdb_vdat_4k`, `s_xdb_vdat_256k` and `s_xdb_vdat_16m` as `xdb_vdat_init` fills them; `none` is an
-- index out of the array.
unfoldable pub vdat_4k : ℕ → Option ℕ
vdat_4k i = if ltb i 256 then some (find ((i + 1) * 16)) else none

unfoldable pub vdat_256k : ℕ → Option ℕ
vdat_256k i = if ltb i 252 then some (find (4096 + (i + 1) * 1024)) else none

unfoldable pub vdat_16m : ℕ → Option ℕ
vdat_16m i = if ltb i 252 then some (find (256 * 1024 + (i + 1) * 65536)) else none

-- `xdb_vdat_type`
unfoldable pub type_of : ℕ → Option ℕ
type_of size =
    if leb size 4096
    then vdat_4k (size / 16)
    else if leb size (256 * 1024)
    then vdat_256k (size / 1024)
    else vdat_16m (size / 65536)

-- `xdb_vdatm_t`: a store is opened when it is first used.
abbrev pub Vdatm : Type 0
Vdatm = ℕ → Option Stg

-- `xdb_vdata_alloc`: `opened` is what `xdb_vdata_create` opens; without a store the source fails
-- through NULL. Out of the array the source has no meaning. The type and the block, -1 being `none`.
abbrev pub store_of : Option Stg → Option Stg → Option Stg
store_of none opened = opened
store_of (some s) opened = some s

unfoldable pub alloc : Vdatm → ℕ → Option Stg → Memory → Option (ℕ × Option ℕ × Vdatm)
alloc v len opened mem = elim (type_of len) [
  | none ↦ none
  | some k ↦ elim (store_of (v k) opened) [
    | none ↦ none
    | some s ↦ let r = Store.alloc s mem in some (k, r.0, update v k (some r.1))
  ]
]

-- The reference count above the length.
abbrev pub refs : ℕ → ℕ
refs word = word / 2 ^ 28

abbrev with_word : Stg → ℕ → ℕ → Stg
with_word s vid word = record s { rows = update s.rows vid (record (s.rows vid) { next = word }) }

-- `xdb_vdata_ref` in the store of the type
unfoldable pub ref : Stg → ℕ → Stg
ref s vid = with_word s vid (((s.rows vid).next + 2 ^ 28) % 2 ^ 32)

-- `xdb_vdata_free` in the store of the type
unfoldable pub free : Stg → ℕ → Stg
free s vid =
    let word = (s.rows vid).next in
    if leb (refs word) 8 then Store.free s vid else with_word s vid (word - 2 ^ 28)
