-- ===== src/Rbt/Rename.antt =====
-- A row takes the place of another one in the tree.
use cross_db.Base.{ℕ, ◌≡◌, ◌≢◌, ◌==◌, if◌then◌else◌, arith}
use cross_db.Rbt.{Rbt, is_red, replace_child}
use cross_db.Rbt.Remove.{transplant, placed}
use cross_db.Rbt.Turn.{swapped}

module _ (t : Rbt) (z y p l : ℕ) (p_eq : (t.nodes z).rb_parent ≡ p) (l_eq : (t.nodes z).rb_left ≡ l)
    (zy : z ≢ y) (zp : z ≢ p) (zl : z ≢ l) (yp : y ≢ p) (yl : y ≢ l) (pl : p ≢ 0 → p ≢ l) where
  pub placed_off : (k : ℕ) → k ≢ y → k ≢ l → (p ≢ 0 → k ≢ p) → (placed t z y).nodes k ≡ t.nodes k
  unfolding placed transplant replace_child
  placed_off k ky kl kp = ground arith

  pub placed_l : (placed t z y).nodes l ≡ record (t.nodes l) { rb_parent = y }
  unfolding placed transplant replace_child
  placed_l = ground arith

  pub placed_p : p ≢ 0 → (placed t z y).nodes p ≡ swapped (t.nodes p) z y
  unfolding placed transplant replace_child
  placed_p n = ground arith

  pub placed_y :
      ((placed t z y).nodes y).rb_left ≡ l
      × (((placed t z y).nodes y).rb_right ≡ (t.nodes y).rb_right)
      × (((placed t z y).nodes y).rb_parent ≡ p)
      × (is_red (placed t z y).nodes y ≡ is_red t.nodes z)
  unfolding placed transplant replace_child
  placed_y = (ground arith, ground arith, ground arith, ground arith)

  pub placed_root : (placed t z y).rb_root ≡ (if p == 0 then y else t.rb_root)
  unfolding placed transplant replace_child
  placed_root = ground arith
