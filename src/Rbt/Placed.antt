-- ===== src/Rbt/Placed.antt =====
-- The row that takes the place of another one holds its subtrees.
use cross_db.Base.{ℕ, ◌+◌, ◌≤◌, ◌≡◌, ◌≢◌, refl, sym, ap, ◌∙◌, Bool, List, arith, subst}
use cross_db.Rbt.{Rbt, RbNode, is_red, has_msb}
use cross_db.Rbt.Tree.{
  Tree, bin, Rep, Frame, PathUp, above, count, at, Rep-same, Rep-counted, Rep-moved, at_self,
}
use cross_db.Rbt.Turn.{PathUp-swapped, at_eq}
use cross_db.Rbt.Step.{NullBlack}
use cross_db.Rbt.Hang.{in_path}
use cross_db.Rbt.Delete.{Kept}
use cross_db.Rbt.Remove.{placed}
use cross_db.Rbt.Rename.{placed_off, placed_l, placed_p, placed_y, placed_root}

-- The row `z` stands under `p` with the tree `a` on the left, and the new row `y` has the tree `b` on the
-- right already.
pub record Prepared (t : Rbt) (q z y p : ℕ) (c : Bool) (a b : Tree) (fs : List Frame) : Type 0 where
  pub z_nz : z ≢ 0
  pub y_nz : y ≢ 0
  pub z_up : (t.nodes z).rb_parent ≡ p
  pub z_red : is_red t.nodes z ≡ c
  pub before : Rep t.nodes z (t.nodes z).rb_left a
  pub has_before : (t.nodes z).rb_left ≢ 0
  pub behind : Rep t.nodes y (t.nodes y).rb_right b
  pub path : PathUp t.nodes t.rb_root z p fs
  pub once : (k : ℕ) → at k z + at k y + count k a + count k b + above k fs ≤ 1
  pub null : NullBlack t
  pub null_up : (t.nodes 0).rb_parent ≡ q

module _ (t : Rbt) (q z y p : ℕ) (c : Bool) (a b : Tree) (fs : List Frame)
    (ready : Prepared t q z y p c a b fs) where
  pub placed_lem : Kept (placed t z y) q y p (bin c a y b) fs
  placed_lem =
      let r = ready in
      let l = (t.nodes z).rb_left in
      let t' = placed t z y in
      let once = r.once in
      let l_in : 1 ≤ count l a = Rep-counted t.nodes z l a r.before r.has_before in
      let p_in : p ≢ 0 → 1 ≤ above p fs = in_path t.nodes t.rb_root z p fs r.path in
      let zy : z ≢ y = λ i. omega (arith, once z, at_self z, at_eq z y i) in
      let zp : z ≢ p = λ i. omega (
        arith,
        once z,
        at_self z,
        subst (λ k. 1 ≤ above k fs) (sym i) (p_in (λ e. r.z_nz (i ∙ e))),
      ) in
      let yp : y ≢ p = λ i. omega (
        arith,
        once y,
        at_self y,
        subst (λ k. 1 ≤ above k fs) (sym i) (p_in (λ e. r.y_nz (i ∙ e))),
      ) in
      let zl : z ≢ l =
        λ i. omega (arith, once z, at_self z, subst (λ k. 1 ≤ count k a) (sym i) l_in) in
      let yl : y ≢ l =
        λ i. omega (arith, once y, at_self y, subst (λ k. 1 ≤ count k a) (sym i) l_in) in
      let pl : p ≢ 0 → p ≢ l =
        λ n i. omega (arith, once p, p_in n, subst (λ k. 1 ≤ count k a) (sym i) l_in) in
      let keeps : (k : ℕ)
          → 1 ≤ count k a + count k b + above k fs
          → k ≢ l
          → (1 ≤ above k fs → k ≢ p)
          → t'.nodes k ≡ t.nodes k =
        λ k n m o.
          placed_off t z y p l r.z_up refl zy zp zl yp yl pl k
            (λ i. omega (arith, once k, n, at_eq k y i)) m
            (λ e i. o (subst (λ j. 1 ≤ above j fs) (sym i) (p_in e)) i) in
      let off_l : (k : ℕ) → 1 ≤ count k b + above k fs → k ≢ l =
        λ k n i. omega (arith, once k, n, subst (λ j. 1 ≤ count j a) (sym i) l_in) in
      let zero_same : t'.nodes 0 ≡ t.nodes 0 =
        placed_off t z y p l r.z_up refl zy zp zl yp yl pl 0 (λ e. r.y_nz (sym e))
          (λ e. r.has_before (sym e)) (λ n e. n (sym e)) in
      let (y_left, y_right, y_up, y_red) = placed_y t z y p l r.z_up refl zy zp zl yp yl pl in
      let a_new : Rep t'.nodes y (t'.nodes y).rb_left a = rw y_left (
        Rep-moved t.nodes t'.nodes z y l a (λ k. omega (arith, once k))
          (λ k n m. keeps k (omega (arith, n)) m (λ o i. omega (arith, once k, n, o)))
          (λ n. placed_l t z y p l r.z_up refl zy zp zl yp yl pl) r.before) in
      let b_new : Rep t'.nodes y (t'.nodes y).rb_right b = rw y_right (
        Rep-same t.nodes t'.nodes y (t.nodes y).rb_right b
          (λ k n.
            keeps k (omega (arith, n)) (off_l k (omega (arith, n)))
              (λ o i. omega (arith, once k, n, o)))
          r.behind) in
      (
        (
          (refl, r.y_nz, y_up, y_red ∙ r.z_red, a_new, b_new),
          PathUp-swapped t.nodes t'.nodes t.rb_root t'.rb_root z y p fs (λ k. omega (arith, once k))
              r.z_nz (omega (arith, once z, at_self z))
              (λ k n m. keeps k (omega (arith, n)) (off_l k (omega (arith, n))) (λ o. m))
              (placed_p t z y p l r.z_up refl zy zp zl yp yl pl)
              (placed_root t z y p l r.z_up refl zy zp zl yp yl pl) r.path,
          λ k. omega (arith, once k),
        ),
        ap (λ (n : RbNode). has_msb n.color_sibling) zero_same ∙ r.null,
        ap (λ (n : RbNode). n.rb_parent) zero_same ∙ r.null_up,
      )
