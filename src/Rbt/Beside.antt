-- ===== src/Rbt/Beside.antt =====
-- Which turn the loop of `xdb_rb_delete_fixup` makes, and where it leads.
use cross_db.Base.{
  ℕ, ◌≡◌, refl, sym, ◌∙◌, Bool, true, false, if◌then◌else◌, List, ◌∷◌, arith, subst, length,
  Bool-cases, inl, inr,
}
use cross_db.Rbt.{Rbt, Side, other, child, is_red, redden}
use cross_db.Rbt.Remove.{case3, case4, black_beside}
use cross_db.Rbt.Tree.{Tree, rows, mk, Rep, Frame, plug, NodeAt, open_node}
use cross_db.Rbt.Shape.{frame, step_up, rows-turn, rows-mk, rows-plug}
use cross_db.Rbt.Sound.{red_top, Sound}
use cross_db.Rbt.Step.{is_red-top}
use cross_db.Rbt.Fixup.{from_side, same_root}
use cross_db.Rbt.Delete.{Kept, KeptAt, case3_lem}
use cross_db.Rbt.Lower.{Lowered, PathFor, noted_parent, case2-Lowered, case4-Lowered}

module _ (s : Side) (t : Rbt) (x xp w : ℕ) (x_up : (t.nodes x).rb_parent ≡ xp)
    (w_at : child (other s) (t.nodes xp) ≡ w) where
  goes_two :
      is_red t.nodes (child s (t.nodes w)) ≡ false
      → is_red t.nodes (child (other s) (t.nodes w)) ≡ false
      → black_beside s t x ≡ (record t { nodes = redden t.nodes w }, xp)
  unfolding black_beside
  goes_two a b = rw (x_up, w_at, a, b) refl

  goes_four :
      (near : Bool) (k : ℕ)
      → child (other s) (t.nodes w) ≡ k
      → is_red t.nodes (child s (t.nodes w)) ≡ near
      → is_red t.nodes k ≡ true
      → black_beside s t x ≡ (case4 s t xp w k, (case4 s t xp w k).rb_root)
  unfolding black_beside
  goes_four true k e a b = rw (x_up, w_at, e, a, b, x_up, w_at, e) refl
  goes_four false k e a b = rw (x_up, w_at, e, a, b, x_up, w_at, e) refl

  goes_three :
      (k w2 k2 : ℕ)
      → child s (t.nodes w) ≡ k
      → is_red t.nodes k ≡ true
      → is_red t.nodes (child (other s) (t.nodes w)) ≡ false
      → let t2 = case3 s t k w in
        ((t2.nodes x).rb_parent ≡ xp)
        → (child (other s) (t2.nodes xp) ≡ w2)
        → (child (other s) (t2.nodes w2) ≡ k2)
        → black_beside s t x ≡ (case4 s t2 xp w2 k2, (case4 s t2 xp w2 k2).rb_root)
  unfolding black_beside
  goes_three k w2 k2 e a b up at_w at_k = rw (x_up, w_at, e, a, b) (rw (up, at_w, at_k) refl)

abbrev pub LoweredBy : (Rbt × ℕ) → List ℕ → ℕ → Type 0
LoweredBy out xs m = Lowered out.0 out.1 xs m

cheaper : (o : Rbt × ℕ) (xs : List ℕ) (m : ℕ) → LoweredBy o xs 0 → LoweredBy o xs m
cheaper o xs m l =
    let (q, p, u, n, fs, lacks, order, low) = l in
    (q, p, u, n, fs, lacks, order, omega (arith, low))

-- A turn at `x` below `xp`, beside the black node `w` with the children `c` and `d`.
module _ (s : Side) (t : Rbt) (q x p xp w n : ℕ) (f : Bool) (u c d : Tree) (gs : List Frame)
    (kept : Kept t q x p u (frame s f xp (mk s false c w d) ∷ gs)) (noted : x ≡ 0 → q ≡ p)
    (ru : red_top u ≡ false) (su : Sound u n) (sc : Sound c n) (sd : Sound d n)
    (path : PathFor f n gs) where
  whole_tree : Tree
  whole_tree = mk s f u xp (mk s false c w d)

  p_eq : p ≡ xp
  p_eq = kept.0.1.0

  x_up : (t.nodes x).rb_parent ≡ xp
  x_up = noted_parent t q x p u kept.0.0 kept.2 noted ∙ p_eq

  beside_at : NodeAt t.nodes xp (child (other s) (t.nodes xp)) s false c w d
  beside_at = open_node t.nodes xp (child (other s) (t.nodes xp)) s false c w d kept.0.1.4

  near_red : is_red t.nodes (child s (t.nodes w)) ≡ red_top c
  near_red = is_red-top t.nodes w (child s (t.nodes w)) c kept.1 beside_at.4

  far_red : is_red t.nodes (child (other s) (t.nodes w)) ≡ red_top d
  far_red = is_red-top t.nodes w (child (other s) (t.nodes w)) d kept.1 beside_at.5

  at_top : KeptAt t q xp whole_tree gs
  unfolding whole_tree
  at_top = (
    xp,
    (t.nodes xp).rb_parent,
    (step_up t x p u (frame s f xp (mk s false c w d)) gs kept.0, kept.1, kept.2),
  )

  two :
      red_top c ≡ false
      → red_top d ≡ false
      → LoweredBy (black_beside s t x) (rows (plug gs whole_tree)) (if f then 0 else length gs)
  unfolding whole_tree
  two rc rd =
      subst (λ o. LoweredBy o (rows (plug gs whole_tree)) (if f then 0 else length gs))
        (sym (goes_two s t x xp w x_up beside_at.0 (near_red ∙ rc) (far_red ∙ rd)))
        (case2-Lowered s t q x xp w n f u gs c d at_top ru su rc rd sc sd path)

  four : red_top d ≡ true → LoweredBy (black_beside s t x) (rows (plug gs whole_tree)) 0
  unfolding whole_tree
  four rd =
      let (d1, k, d2, d_eq, r1, r2, s1, s2) = from_side s d n rd sd in
      let far_at =
        open_node t.nodes w (child (other s) (t.nodes w)) s true d1 k d2
          (subst (λ v. Rep t.nodes w (child (other s) (t.nodes w)) v) d_eq beside_at.5) in
      let kept' = subst (λ v. KeptAt t q xp (mk s f u xp (mk s false c w v)) gs) d_eq at_top in
      subst
        (λ v. LoweredBy (black_beside s t x) (rows (plug gs (mk s f u xp (mk s false c w v)))) 0)
        (sym d_eq)
        (subst
          (λ o. LoweredBy o (rows (plug gs (mk s f u xp (mk s false c w (mk s true d1 k d2))))) 0)
          (sym (goes_four s t x xp w x_up beside_at.0 (red_top c) k far_at.0 near_red far_at.3))
          (case4-Lowered s t q x xp w n f u gs c d1 d2 k kept' su sc s1 s2 path))

  three :
      red_top c ≡ true
      → red_top d ≡ false
      → LoweredBy (black_beside s t x) (rows (plug gs whole_tree)) 0
  unfolding whole_tree
  three rc rd =
      let (c1, k, c2, c_eq, r1, r2, s1, s2) = from_side s c n rc sc in
      let near_at =
        open_node t.nodes w (child s (t.nodes w)) s true c1 k c2
          (subst (λ v. Rep t.nodes w (child s (t.nodes w)) v) c_eq beside_at.4) in
      let kept' = subst (λ v. KeptAt t q xp (mk s f u xp (mk s false v w d)) gs) c_eq at_top in
      let t2 = case3 s t k w in
      let now = mk s f u xp (mk s false c1 k (mk s true c2 w d)) in
      let (y, p', kept2) = case3_lem s t q xp w k gs f u c1 c2 d kept' in
      let top2 = open_node t2.nodes p' y s f u xp (mk s false c1 k (mk s true c2 w d)) kept2.0.0 in
      let k_node =
        open_node t2.nodes xp (child (other s) (t2.nodes xp)) s false c1 k (mk s true c2 w d)
          top2.5 in
      let w_node = open_node t2.nodes k (child (other s) (t2.nodes k)) s true c2 w d k_node.5 in
      let u_at : Rep t2.nodes xp x u =
        subst (λ v. Rep t2.nodes xp v u)
          (same_root t2.nodes t.nodes xp p (child s (t2.nodes xp)) x u top2.4 kept.0.0) top2.4 in
      let x_up2 = noted_parent t2 q x xp u u_at kept2.2 (λ e. noted e ∙ p_eq) in
      let order : rows (plug gs now)
          ≡ rows (plug gs (mk s f u xp (mk s false (mk s true c1 k c2) w d))) =
        rows-plug gs now (mk s f u xp (mk s false (mk s true c1 k c2) w d)) (
          rows-mk s f f u u xp (mk s false c1 k (mk s true c2 w d))
            (mk s false (mk s true c1 k c2) w d) refl
            (rows-turn s false true true false c1 c2 d k w)) in
      subst
        (λ v. LoweredBy (black_beside s t x) (rows (plug gs (mk s f u xp (mk s false v w d)))) 0)
        (sym c_eq)
        (subst (λ v. LoweredBy (black_beside s t x) v 0) order
          (subst (λ o. LoweredBy o (rows (plug gs now)) 0)
            (sym (
              goes_three s t x xp w x_up beside_at.0 k k w near_at.0 near_at.3 (far_red ∙ rd) x_up2
                k_node.0 w_node.0))
            (case4-Lowered s t2 q x xp k n f u gs c1 c2 d w (y, p', kept2) su s1 s2 sd path)))

  pub beside-Lowered :
      LoweredBy
        (black_beside s t x)
        (rows (plug gs (mk s f u xp (mk s false c w d))))
        (if f then 0 else length gs)
  unfolding whole_tree
  beside-Lowered =
      let all = rows (plug gs (mk s f u xp (mk s false c w d))) in
      let bound = if f then 0 else length gs in
      elim (Bool-cases (red_top d)) [
        | inl rd ↦ cheaper (black_beside s t x) all bound (four rd)
        | inr rd ↦ elim (Bool-cases (red_top c)) [
          | inl rc ↦ cheaper (black_beside s t x) all bound (three rc rd)
          | inr rc ↦ two rc rd
        ]
      ]
