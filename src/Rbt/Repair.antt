-- ===== src/Rbt/Repair.antt =====
-- The loop of `xdb_rb_insert_fixup` ends, and leaves a sound tree with the rows in their order.
use cross_db.Base.{
  ℕ, suc, ◌+◌, ◌≤◌, ◌≡◌, ◌≢◌, refl, sym, ap, ◌∙◌, true, false, ◌==◌, if◌then◌else◌, List, ◌∷◌,
  arith, subst, length, eq→==, ne→==,
}
use cross_db.Rbt.{
  Rbt, RbNode, Side, left, right, other, child, is_red, rotate, outer_turn, recolor_turn,
  insert_turn,
}
use cross_db.Rbt.Tree.{Tree, tip, bin, rows, mk, Rep, Frame, plug, count, Rep-counted}
use cross_db.Rbt.Shape.{frame}
use cross_db.Rbt.Sound.{red_top}
use cross_db.Rbt.Step.{is_red-top}
use cross_db.Rbt.Fixup.{Ready, Moved, red-Moved, same_side-Moved, other_side-Moved}

-- The way `insert_turn` goes.
module _ (s : Side) (t : Rbt) (z zp zpp : ℕ) where
  goes_red :
      is_red t.nodes (child (other s) (t.nodes zpp)) ≡ true
      → insert_turn s t z zp zpp ≡ (recolor_turn t zp (child (other s) (t.nodes zpp)) zpp, zpp)
  unfolding insert_turn
  goes_red e = rw e refl

  goes_outer :
      is_red t.nodes (child (other s) (t.nodes zpp)) ≡ false
      → child (other s) (t.nodes zp) ≢ z
      → insert_turn s t z zp zpp ≡ (outer_turn s t zp zpp, z)
  unfolding insert_turn
  goes_outer e n = rw (e, ne→== z (child (other s) (t.nodes zp)) (λ i. n (sym i))) refl

  goes_inner :
      is_red t.nodes (child (other s) (t.nodes zpp)) ≡ false
      → child (other s) (t.nodes zp) ≡ z
      → ((rotate s t zp).nodes zp).rb_parent ≡ z
      → ((rotate s t zp).nodes z).rb_parent ≡ zpp
      → insert_turn s t z zp zpp ≡ (outer_turn s (rotate s t zp) z zpp, zp)
  unfolding insert_turn
  goes_inner e i up upper =
      let t1 = rotate s t zp in
      rw (e, eq→== z (child (other s) (t.nodes zp)) (sym i))
        (ap (λ (v : ℕ). (outer_turn s t1 v (t1.nodes v).rb_parent, zp)) up
          ∙ ap (λ (v : ℕ). (outer_turn s t1 z v, zp)) upper)

-- A node has one child `x` where each row stands once.
pub one_child :
    (h : ℕ → RbNode) (k x : ℕ) (s : Side) (u b : Tree)
    → x ≢ 0
    → ((j : ℕ) → count j u + count j b ≤ 1)
    → Rep h k x u
    → Rep h k (child (other s) (h k)) b
    → child (other s) (h k) ≢ x
one_child h k x s u b nz once at_x far e = omega (
  arith,
  once x,
  Rep-counted h k x u at_x nz,
  subst (λ z. 1 ≤ count z b) e
      (Rep-counted h k (child (other s) (h k)) b far (λ i. nz (sym e ∙ i))),
)

pub red_nonzero :
    (h : ℕ → RbNode) (p x : ℕ) (u : Tree)
    → Rep h p x u
    → red_top u ≡ true
    → (x ≢ 0) × ((h x).rb_parent ≡ p)
red_nonzero h p x tip r e = cc
red_nonzero h p x (bin c l k b) r e =
    ((λ i. r.1 (sym r.0 ∙ i)), ap (λ v. (h v).rb_parent) r.0 ∙ r.2)

module _ (t : Rbt) (z p n kf kg : ℕ) (u bf bg : Tree) (gs : List Frame) where
  y_red :
      (sf sg : Side)
      → Ready t z p u n (frame sf true kf bf ∷ frame sg false kg bg ∷ gs)
      → is_red t.nodes (child (other sg) (t.nodes kg)) ≡ red_top bg
  y_red sf sg (holds, ru, su, path, null) =
      is_red-top t.nodes kg (child (other sg) (t.nodes kg)) bg null holds.1.5.4

  child-other :
      (s sg : Side)
      → Ready t z p u n (frame s true kf bf ∷ frame sg false kg bg ∷ gs)
      → child (other s) (t.nodes kf) ≢ z
  child-other s sg (holds, ru, su, path, null) =
      let (z_nz, z_up) = red_nonzero t.nodes p z u holds.0 ru in
      one_child t.nodes kf z s u bf z_nz (λ j. omega (arith, holds.2 j))
        (subst (λ v. Rep t.nodes v z u) holds.1.0 holds.0) holds.1.4

  abbrev pub Turned : Side → Side → Type 0
  Turned sf sg =
      Ready t z p u n (frame sf true kf bf ∷ frame sg false kg bg ∷ gs)
      → let out = insert_turn sg t z kf kg in
        Moved out.0 out.1 (rows (plug gs (mk sg false (mk sf true u kf bf) kg bg)))
          (suc (suc (length gs)))

  to_Moved :
      (s sf : Side) (out : Rbt × ℕ)
      → insert_turn s t z kf kg ≡ out
      → Moved out.0 out.1
          (rows (plug gs (mk s false (mk sf true u kf bf) kg bg)))
          (suc (suc (length gs)))
      → Moved
          (insert_turn s t z kf kg).0
          (insert_turn s t z kf kg).1
          (rows (plug gs (mk s false (mk sf true u kf bf) kg bg)))
          (suc (suc (length gs)))
  to_Moved s sf out e m =
      subst
        (λ (v : Rbt × ℕ).
          Moved v.0 v.1 (rows (plug gs (mk s false (mk sf true u kf bf) kg bg)))
            (suc (suc (length gs))))
        (sym e) m

  same_turn : (s : Side) → red_top bg ≡ false → Turned s s
  same_turn s rg ready =
      to_Moved s s (outer_turn s t kf kg, z)
        (goes_outer s t z kf kg (y_red s s ready ∙ rg) (child-other s s ready))
        (same_side-Moved t z p n kf kg u bf bg gs s ready rg)

  other_turn : (s : Side) → red_top bg ≡ false → Turned (other s) s
  other_turn s rg ready =
      let (moved, up, upper) = other_side-Moved t z p n kf kg u bf bg gs s ready rg in
      to_Moved s (other s) (outer_turn s (rotate s t kf) z kg, kf)
        (goes_inner s t z kf kg (y_red (other s) s ready ∙ rg) ready.0.1.2 up upper) moved

  black_turn : (sf sg : Side) → red_top bg ≡ false → Turned sf sg
  black_turn left left = same_turn left
  black_turn right left = other_turn left
  black_turn left right = other_turn right
  black_turn right right = same_turn right

-- Which turn is made, and where it leads.
pub turn_lem :
    (t : Rbt) (z p n kf kg : ℕ) (u bf bg : Tree) (gs : List Frame) (sf sg : Side)
    → Turned t z p n kf kg u bf bg gs sf sg
turn_lem t z p n kf kg u bf tip gs sf sg ready =
    black_turn t z p n kf kg u bf tip gs sf sg refl ready
turn_lem t z p n kf kg u bf (bin false l k r) gs sf sg ready =
    black_turn t z p n kf kg u bf (bin false l k r) gs sf sg refl ready
turn_lem t z p n kf kg u bf (bin true l k r) gs sf sg ready =
    let y_eq : child (other sg) (t.nodes kg) ≡ k = ready.0.1.5.4.0 in
    to_Moved t z p n kf kg u bf (bin true l k r) gs sg sf (recolor_turn t kf k kg, kg)
      (goes_red sg t z kf kg (y_red t z p n kf kg u bf (bin true l k r) gs sf sg ready)
        ∙ ap (λ (v : ℕ). (recolor_turn t kf v kg, kg)) y_eq)
      (red-Moved t z p n kf kg u bf (bin true l k r) gs sg sf l r k ready)

-- The parent of `z` is the child of the one above on the side that the test finds.
pub side_found :
    (h : ℕ → RbNode) (kf kg : ℕ) (s : Side)
    → child s (h kg) ≡ kf
    → child (other s) (h kg) ≢ kf
    → (if kf == (h kg).rb_left then left else right) ≡ s
side_found h kf kg left e n = rw (eq→== kf (h kg).rb_left (sym e)) refl
side_found h kf kg right e n = rw (ne→== kf (h kg).rb_left (λ i. n (sym i))) refl
