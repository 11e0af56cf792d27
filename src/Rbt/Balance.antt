-- ===== src/Rbt/Balance.antt =====
-- A red-black tree is no deeper than twice the logarithm of its size.
use native.Mathlib.Nat.{pow-suc, pow-le-pow_right}
use native.Mathlib.Decide.{dec_lt}
use cross_db.Base.{
  ℕ, zero, suc, ◌+◌, ◌*◌, ◌^◌, ◌≤◌, ◌<◌, ◌≡◌, Bool, true, false, ◌∷◌, arith, if◌then◌else◌, length,
  length-append, subst,
}
use cross_db.Rbt.Tree.{Tree, tip, bin, rows}
use cross_db.Rbt.Sound.{red_top, Sound}
use cross_db.Rbt.Descend.{depth, max}

one_if : Bool → ℕ
one_if c = if c then 1 else 0

max-le : (a b m : ℕ) → a ≤ m → b ≤ m → max a b ≤ m
max-le a b m h k = ground arith

one_if-le : (c : Bool) → one_if c ≤ 1
unfolding one_if
one_if-le true = omega arith
one_if-le false = omega arith

black_depth :
    (u : Tree) (n : ℕ) → red_top u ≡ false → depth u ≤ 2 * n + one_if (red_top u) → depth u ≤ 2 * n
unfolding one_if
black_depth u n e h = omega (arith, subst (λ c. depth u ≤ 2 * n + one_if c) e h)

depth-le : (u : Tree) (n : ℕ) → Sound u n → depth u ≤ 2 * n + one_if (red_top u)
unfolding one_if
depth-le tip n s = omega arith
depth-le (bin true l k r) n s =
    let dl : depth l ≤ 2 * n = omega (arith, black_depth l n s.0 (depth-le l n s.2)) in
    let dr : depth r ≤ 2 * n = omega (arith, black_depth r n s.1 (depth-le r n s.3)) in
    omega (arith, max-le (depth l) (depth r) (2 * n) dl dr)
depth-le (bin false l k r) zero s = absurd s
depth-le (bin false l k r) (suc n) s = omega (
  arith,
  max-le (depth l) (depth r) (2 * n + 1) (omega (arith, depth-le l n s.0, one_if-le (red_top l)))
      (omega (arith, depth-le r n s.1, one_if-le (red_top r))),
)

size-le : (u : Tree) (n : ℕ) → Sound u n → 2 ^ n ≤ length (rows u) + 1
size-le tip n s = rw s (omega arith)
size-le (bin true l k r) n s = omega (arith, size-le l n s.2, length-append (rows l) (k ∷ rows r))
size-le (bin false l k r) zero s = absurd s
size-le (bin false l k r) (suc n) s =
    omega
      (arith, pow-suc 2 n, size-le l n s.0, size-le r n s.1, length-append (rows l) (k ∷ rows r))

-- With fewer than `2 ^ k` rows there are fewer than `2 * k` nodes on each way down.
pub depth-lt :
    (u : Tree) (n k : ℕ)
    → Sound u n
    → red_top u ≡ false
    → length (rows u) + 1 < 2 ^ k
    → depth u < 2 * k
depth-lt u n k s black few =
    let deep : depth u ≤ 2 * n = black_depth u n black (depth-le u n s) in
    let grown : ¬ (n < k) → 2 ^ k ≤ 2 ^ n =
      λ h. pow-le-pow_right (omega arith) (omega (arith, h)) in
    elim (dec_lt n k) [
      | yes h ↦ omega (arith, deep, h)
      | no h ↦ absurd (omega (arith, few, size-le u n s, grown h))
    ]
