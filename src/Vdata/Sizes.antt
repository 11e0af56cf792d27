-- ===== src/Vdata/Sizes.antt =====
-- The size class of `xdb_vdat_type` holds what is asked for.
use mathlib.Core.Bool.{false≢true}
use mathlib.Core.Option.{none-ne-some}
use cross_db.Base.{
  ◌==◌, ==→eq, ==→ne, ltb→lt, ap, ℕ, zero, suc, ◌+◌, ◌*◌, ◌/◌, ◌<◌, ◌≤◌, ◌≡◌, refl, Bool, true,
  false, ltb, leb, ◌&&◌, if◌then◌else◌, Option, none, some, arith, leb→le, Bool-cases, inl, inr,
  ◌≢◌, ◌↔◌, ◌⊎◌,
}
use cross_db.Vdata.{size_at, find, vdat_4k, vdat_256k, vdat_16m, type_of, nth}

and-left : (a b : Bool) → (a && b) ≡ true → a ≡ true
and-left true b h = refl
and-left false b h = h

and-right : (a b : Bool) → (a && b) ≡ true → b ≡ true
and-right true b h = h
and-right false b h = absurd (false≢true h)

-- For each `i` below `n`.
all_below : (ℕ → Bool) → ℕ → Bool
all_below p zero = true
all_below p (suc n) = p n && all_below p n

all_below_lem : (p : ℕ → Bool) (n : ℕ) → all_below p n ≡ true → (i : ℕ) → i < n → p i ≡ true
unfolding all_below
all_below_lem p zero h i lt = absurd (omega (arith, lt))
all_below_lem p (suc n) h i lt = elim (Bool-cases (i == n)) [
  | inl e ↦ rw (==→eq i n e) (and-left (p n) (all_below p n) h)
  | inr e ↦ all_below_lem p n (and-right (p n) (all_below p n) h) i (omega (arith, lt, ==→ne i n e))
]

-- What the entry `i` of each table is for.
abbrev need_4k : ℕ → ℕ
need_4k i = (i + 1) * 16

abbrev need_256k : ℕ → ℕ
need_256k i = 4096 + (i + 1) * 1024

abbrev need_16m : ℕ → ℕ
need_16m i = 256 * 1024 + (i + 1) * 65536

-- The size class that is found for it holds as much.
abbrev holds : (ℕ → ℕ) → ℕ → Bool
holds need i = leb (need i) (size_at (find (need i)))

holds_4k : all_below (holds need_4k) 256 ≡ true
unfolding all_below size_at find nth
holds_4k = refl

holds_256k : all_below (holds need_256k) 252 ≡ true
unfolding all_below size_at find nth
holds_256k = refl

holds_16m : all_below (holds need_16m) 252 ≡ true
unfolding all_below size_at find nth
holds_16m = refl

some-injective : (a b : ℕ) → some a ≡ some b → a ≡ b
some-injective a b e = ap (λ (o : Option ℕ). elim o [ none ↦ 0 | some x ↦ x ]) e

-- An entry of one of the tables, at the index `i` of `n`.
entry :
    (need : ℕ → ℕ) (n i k : ℕ)
    → all_below (holds need) n ≡ true
    → (if ltb i n then some (find (need i)) else none) ≡ some k
    → need i ≤ size_at k
entry need n i k all e = elim (Bool-cases (ltb i n)) [
  | inl c ↦ rw (some-injective (find (need i)) k (rw c at e)) at (
      leb→le (need i) (size_at (find (need i))) (all_below_lem (holds need) n all i (ltb→lt i n c)))
  | inr c ↦ absurd (none-ne-some k (rw c at e))
]

-- When `xdb_vdat_type` reads inside its tables, the blocks of the class that it gives hold the size.
pub type_of-fits : (size k : ℕ) → type_of size ≡ some k → size ≤ size_at k
unfolding type_of vdat_4k vdat_256k vdat_16m
type_of-fits size k e = elim (Bool-cases (leb size 4096)) [
  | inl c ↦ omega (arith, entry need_4k 256 (size / 16) k holds_4k (rw c at e))
  | inr c ↦ elim (Bool-cases (leb size (256 * 1024))) [
    | inl c' ↦ omega (arith, entry need_256k 252 (size / 1024) k holds_256k (rw (c, c') at e))
    | inr c' ↦ omega (arith, entry need_16m 252 (size / 65536) k holds_16m (rw (c, c') at e))
  ]
]

-- `xdb_vdat_type` reads inside its tables exactly for the sizes below 4096, those above 4096 and
-- below 258048, and those above 262144 and below 16515072.
pub type_of-defined :
    (size : ℕ)
    → (type_of size ≢ none) ↔ (
        (size < 4096)
        ⊎ ((4096 < size) × (size < 252 * 1024))
        ⊎ ((256 * 1024 < size) × (size < 252 * 65536)))
unfolding type_of vdat_4k vdat_256k vdat_16m
type_of-defined size = ground arith
