-- ===== src/Bmp/Word.antt =====
-- The 64-bit words of lib/xdb_bmp.c: `w & (1LL << k)`, `w |= 1LL << k`, `w &= ~(1LL << k)`.
-- A word is a number below 2 ^ 64, and the three operations are by recursion on its binary digits.
use native.Mathlib.Nat.{pow-suc}
use cross_db.Base.{
  ℕ, zero, suc, ◌+◌, ◌*◌, ◌/◌, ◌%◌, ◌^◌, ◌<◌, ◌≤◌, ◌≡◌, refl, Bool, true, false, arith, ◌==◌,
  if◌then◌else◌,
}

-- `(w & (1LL << k)) != 0`
unfoldable pub bit : ℕ → ℕ → Bool
bit w zero = w % 2 == 1
bit w (suc k) = bit (w / 2) k

-- `w | (1LL << k)`
unfoldable pub set_bit : ℕ → ℕ → ℕ
set_bit w zero = w / 2 * 2 + 1
set_bit w (suc k) = w % 2 + 2 * set_bit (w / 2) k

-- `w & ~(1LL << k)`
unfoldable pub clr_bit : ℕ → ℕ → ℕ
clr_bit w zero = w / 2 * 2
clr_bit w (suc k) = w % 2 + 2 * clr_bit (w / 2) k

half_digit : (w v : ℕ) → (w % 2 + 2 * v) / 2 ≡ v
half_digit w v = omega arith

half_even : (v : ℕ) → v * 2 / 2 ≡ v
half_even v = omega arith

half_odd : (v : ℕ) → (v * 2 + 1) / 2 ≡ v
half_odd v = omega arith

module _ where
  pub bit-set_bit : (k j w : ℕ) → bit (set_bit w k) j ≡ (if j == k then true else bit w j)
  unfolding bit set_bit
  bit-set_bit zero zero w = ground arith
  bit-set_bit zero (suc j) w = rw half_odd (ground arith)
  bit-set_bit (suc k) zero w = ground arith
  bit-set_bit (suc k) (suc j) w = rw half_digit (ground (arith, bit-set_bit k j (w / 2)))

  pub bit-clr_bit : (k j w : ℕ) → bit (clr_bit w k) j ≡ (if j == k then false else bit w j)
  unfolding bit clr_bit
  bit-clr_bit zero zero w = ground arith
  bit-clr_bit zero (suc j) w = rw half_even (ground arith)
  bit-clr_bit (suc k) zero w = ground arith
  bit-clr_bit (suc k) (suc j) w = rw half_digit (ground (arith, bit-clr_bit k j (w / 2)))

pub bit-zero : (k : ℕ) → bit 0 k ≡ false
unfolding bit
bit-zero zero = refl
bit-zero (suc k) = bit-zero k

pub set_bit-lt : (n k w : ℕ) → k < n → w < 2 ^ n → set_bit w k < 2 ^ n
unfolding set_bit
set_bit-lt zero k w hk h = elim hk [ ]
set_bit-lt (suc n) zero w hk h = omega (arith, pow-suc 2 n)
set_bit-lt (suc n) (suc k) w hk h =
    omega (arith, pow-suc 2 n, set_bit-lt n k (w / 2) (omega arith) (omega (arith, pow-suc 2 n)))

pub clr_bit-le : (k w : ℕ) → clr_bit w k ≤ w
unfolding clr_bit
clr_bit-le zero w = omega arith
clr_bit-le (suc k) w = omega (arith, clr_bit-le k (w / 2))

-- A word all of whose bits are clear is zero.
pub eq-zero_of_bits : (n w : ℕ) → w < 2 ^ n → ((k : ℕ) → k < n → bit w k ≡ false) → w ≡ 0
unfolding bit
eq-zero_of_bits zero w h all = omega arith
eq-zero_of_bits (suc n) w h all =
    let e : w / 2 ≡ 0 =
      eq-zero_of_bits n (w / 2) (omega (arith, pow-suc 2 n)) (λ k hk. all (suc k) (omega arith)) in
    let z : bit w 0 ≡ false = all 0 (omega arith) in ground (arith, e, z)

pub eq-zero-bit : (w k : ℕ) → w ≡ 0 → bit w k ≡ false
eq-zero-bit w k e = rw e (bit-zero k)

pub set_bit-zero : (k : ℕ) → set_bit 0 k ≡ 2 ^ k
unfolding set_bit
set_bit-zero zero = refl
set_bit-zero (suc k) = omega (arith, set_bit-zero k, pow-suc 2 k)
