-- ===== src/Rbt/Replace.antt =====
-- The tree before the last step of `rem_inner`.
use cross_db.Base.{
  ℕ, ◌+◌, ◌≤◌, ◌≡◌, ◌≢◌, refl, sym, ap, ◌∙◌, Bool, List, [], ◌∷◌, ◌++◌, arith, subst, update-same,
  update-other,
}
use cross_db.Rbt.{Rbt, RbNode, right, has_msb, set_parent}
use cross_db.Rbt.Tree.{
  Tree, tip, bin, Rep, Frame, PathUp, above, count, at, Rep-same, Rep-counted, Rep-moved,
  PathUp-same, at_self,
}
use cross_db.Rbt.Turn.{at_eq}
use cross_db.Rbt.Shape.{frame, Holds}
use cross_db.Rbt.Step.{NullBlack}
use cross_db.Rbt.Placed.{Prepared}
use cross_db.Rbt.Cut.{zero_absent, zero_above}
use cross_db.Rbt.Delete.{Kept}
use cross_db.Rbt.Inner.{far_off}

-- The row `y` is the right child of `z`.
pub direct-Prepared :
    (t : Rbt) (w p z y : ℕ) (c cy : Bool) (a b : Tree) (fs : List Frame)
    → Holds t w p (bin c a z (bin cy tip y b)) fs
    → NullBlack t
    → (t.nodes z).rb_left ≢ 0
    → let t1 : Rbt = record t { nodes = set_parent t.nodes (t.nodes y).rb_right y } in
      Prepared t1 (t1.nodes 0).rb_parent z y p c a b fs
direct-Prepared t w p z y c cy a b fs (rep, up, once) null a_nz =
    let x = (t.nodes y).rb_right in
    let t1 : Rbt = record t { nodes = set_parent t.nodes x y } in
    let (w_eq, z_nz, z_up, z_red, a_rep, r_rep) = rep in
    let y_nz = r_rep.1 in
    let b_rep : Rep t.nodes y x b = r_rep.5 in
    let x_in : x ≢ 0 → 1 ≤ count x b = Rep-counted t.nodes y x b b_rep in
    let off : (k : ℕ) → k ≢ x → t1.nodes k ≡ t.nodes k =
      λ k n. update-other t.nodes x k (record (t.nodes x) { rb_parent = y }) n in
    let zx : z ≢ x = λ i.
      omega
        (arith, once z, at_self z, subst (λ k. 1 ≤ count k b) (sym i) (x_in (λ e. z_nz (i ∙ e)))) in
    let yx : y ≢ x = λ i.
      omega
        (arith, once y, at_self y, subst (λ k. 1 ≤ count k b) (sym i) (x_in (λ e. y_nz (i ∙ e)))) in
    let path_z : PathUp t.nodes t.rb_root z p fs =
      subst (λ v. PathUp t.nodes t.rb_root v p fs) w_eq up in
    let z_same = off z zx in
    let y_same = off y yx in
    let color : ((t1.nodes 0).color_sibling) ≡ (t.nodes 0).color_sibling = ground arith in
    let stays : (k : ℕ) → k ≢ 0 → 1 ≤ count k a + above k fs → k ≢ x = λ k n m i.
      omega (arith, once k, m, subst (λ j. 1 ≤ count j b) (sym i) (x_in (λ e. n (i ∙ e)))) in
    record {
      z_nz = z_nz;
      y_nz = y_nz;
      z_up = rw z_same z_up;
      z_red = rw z_same z_red;
      before = rw z_same (
          Rep-same t.nodes t1.nodes z (t.nodes z).rb_left a
            (λ k n. off k (
              stays k
                (λ e. omega (
                  arith,
                  n,
                  subst (λ j. count j a ≡ 0) (sym e)
                      (zero_absent t.nodes z (t.nodes z).rb_left a a_rep),
                ))
                (omega (arith, n))))
            a_rep);
      has_before = rw z_same a_nz;
      behind = rw y_same (
          Rep-moved t.nodes t1.nodes y y x b (λ k. omega (arith, once k)) (λ k n m. off k m)
            (λ n. update-same t.nodes x (record (t.nodes x) { rb_parent = y })) b_rep);
      path =
          PathUp-same t.nodes t1.nodes t.rb_root z p fs
            (λ k n. off k (
              stays k
                (λ e. omega (
                  arith,
                  n,
                  subst (λ j. above j fs ≡ 0) (sym e) (zero_above t.nodes t.rb_root z p fs path_z),
                ))
                (omega (arith, n))))
            path_z;
      once = λ k. omega (arith, once k);
      null = ap has_msb color ∙ null;
      null_up = refl;
    }

pub above-append : (k : ℕ) (ds fs : List Frame) → above k (ds ++ fs) ≡ above k ds + above k fs
above-append k [] fs = omega arith
above-append k (d ∷ ds) fs = omega (arith, above-append k ds fs)

-- What `far_off` writes, where `r` is the right child of `z`.
module _ (u : Rbt) (z y r : ℕ) (r_eq : (u.nodes z).rb_right ≡ r) (yr : y ≢ r) where
  far_other : (k : ℕ) → k ≢ y → k ≢ r → (far_off u z y).nodes k ≡ u.nodes k
  unfolding far_off
  far_other k ky kr = ground arith

  far_right : ((far_off u z y).nodes y).rb_right ≡ r
  unfolding far_off
  far_right = ground arith

  far_below : (far_off u z y).nodes r ≡ record (u.nodes r) { rb_parent = y }
  unfolding far_off
  far_below = ground arith

  far_root : (far_off u z y).rb_root ≡ u.rb_root
  unfolding far_off
  far_root = refl

-- The tree `b` is the right one of `z`, and `y` is out of the tree.
pub far-Prepared :
    (u : Rbt) (q r p z y : ℕ) (c : Bool) (a b : Tree) (fs : List Frame)
    → Kept u q r p b (frame right c z a ∷ fs)
    → y ≢ 0
    → r ≢ 0
    → ((h : ℕ → RbNode) (p x : ℕ) → Rep h p x a → x ≢ 0)
    → ((k : ℕ) → at k y + (at k z + count k a + count k b + above k fs) ≤ 1)
    → Prepared (far_off u z y) q z y (u.nodes z).rb_parent c a b fs
far-Prepared u q r p z y c a b fs ((rep, up, o), null, par) y_nz r_nz tall once =
    let t1 = far_off u z y in
    let r_in : 1 ≤ count r b = Rep-counted u.nodes p r b rep r_nz in
    let yr : y ≢ r =
      λ i. omega (arith, once y, at_self y, subst (λ k. 1 ≤ count k b) (sym i) r_in) in
    let zr : z ≢ r =
      λ i. omega (arith, once z, at_self z, subst (λ k. 1 ≤ count k b) (sym i) r_in) in
    let zy : z ≢ y = λ i. omega (arith, once z, at_self z, at_eq z y i) in
    let off : (k : ℕ) → k ≢ y → k ≢ r → t1.nodes k ≡ u.nodes k = far_other u z y r up.2 yr in
    let keeps : (k : ℕ) → 1 ≤ count k a + above k fs → t1.nodes k ≡ u.nodes k = λ k n.
      off k (λ i. omega (arith, once k, n, at_eq k y i))
        (λ i. omega (arith, once k, n, subst (λ j. 1 ≤ count j b) (sym i) r_in)) in
    let z_same = off z zy zr in
    let zero_same = off 0 (λ e. y_nz (sym e)) (λ e. r_nz (sym e)) in
    record {
      z_nz = up.1;
      y_nz = y_nz;
      z_up = ap (λ (n : RbNode). n.rb_parent) z_same;
      z_red = ap (λ (n : RbNode). has_msb n.color_sibling) z_same ∙ up.3;
      before = rw z_same (
          Rep-same u.nodes t1.nodes z (u.nodes z).rb_left a (λ k n. keeps k (omega (arith, n)))
            up.4);
      has_before = rw z_same (tall u.nodes z (u.nodes z).rb_left up.4);
      behind = rw (far_right u z y r up.2 yr) (
          Rep-moved u.nodes t1.nodes p y r b (λ k. omega (arith, once k))
            (λ k n m. off k (λ i. omega (arith, once k, n, at_eq k y i)) m)
            (λ n. far_below u z y r up.2 yr) rep);
      path =
          subst (λ v. PathUp t1.nodes v z (u.nodes z).rb_parent fs) (sym (far_root u z y r up.2 yr))
            (PathUp-same u.nodes t1.nodes u.rb_root z (u.nodes z).rb_parent fs
              (λ k n. keeps k (omega (arith, n))) up.5);
      once = λ k. omega (arith, once k);
      null = ap (λ (n : RbNode). has_msb n.color_sibling) zero_same ∙ null;
      null_up = ap (λ (n : RbNode). n.rb_parent) zero_same ∙ par;
    }
