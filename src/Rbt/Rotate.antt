-- ===== src/Rbt/Rotate.antt =====
-- What a rotation writes.
use cross_db.Base.{ℕ, ◌≡◌, ◌≢◌, ◌==◌, if◌then◌else◌, arith}
use cross_db.Rbt.{Rbt, Side, left, right, other, child, with_child, replace_child, rotate}

-- The nodes of a rotation, where `x` has the child `y`, which has the child `b`, and the parent `p`.
module _ (s : Side) (t : Rbt) (x y b p : ℕ) (y_eq : child (other s) (t.nodes x) ≡ y)
    (b_eq : child s (t.nodes y) ≡ b) (p_eq : (t.nodes x).rb_parent ≡ p) (xy : x ≢ y) (xb : x ≢ b)
    (yb : y ≢ b) (px : p ≢ x) (py : p ≢ y) (pb : p ≢ 0 → p ≢ b) where
  pub off :
      (k : ℕ)
      → k ≢ x
      → k ≢ y
      → (b ≢ 0 → k ≢ b)
      → (p ≢ 0 → k ≢ p)
      → (rotate s t x).nodes k ≡ t.nodes k
  unfolding rotate replace_child
  off k kx ky kb kp = ground arith

  pub at_x : (rotate s t x).nodes x ≡ record (with_child (other s) (t.nodes x) b) { rb_parent = y }
  unfolding rotate replace_child
  at_x = ground arith

  pub at_y : (rotate s t x).nodes y ≡ record (with_child s (t.nodes y) x) { rb_parent = p }
  unfolding rotate replace_child
  at_y = ground arith

  pub at_b : b ≢ 0 → (rotate s t x).nodes b ≡ record (t.nodes b) { rb_parent = x }
  unfolding rotate replace_child
  at_b n = ground arith

  pub at_p :
      p ≢ 0
      → (rotate s t x).nodes p ≡ (
          if x == (t.nodes p).rb_left
          then with_child left (t.nodes p) y
          else with_child right (t.nodes p) y)
  unfolding rotate replace_child
  at_p n = ground arith

  pub root_eq : (rotate s t x).rb_root ≡ (if p == 0 then y else t.rb_root)
  unfolding rotate replace_child
  root_eq = ground arith
