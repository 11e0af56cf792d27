-- ===== src/Rbt/Turn.antt =====
-- A rotation turns the tree at a node, anywhere in the tree.
use cross_db.Base.{
  ℕ, ◌+◌, ◌≤◌, ◌≡◌, ◌≢◌, refl, sym, ◌∙◌, Bool, ◌==◌, if◌then◌else◌, List, [], ◌∷◌, arith, subst,
  eq→==, ne→==,
}
use cross_db.Rbt.{Rbt, RbNode, Side, left, right, other, child, with_child, rotate}
use cross_db.Rbt.Tree.{
  Tree, count, at, mk, Rep, Frame, above, PathUp, at_self, count-mk, open_node, close_node,
  Rep-same, Rep-counted, Rep-moved, PathUp-same,
}
use cross_db.Rbt.Rotate.{off, at_x, at_y, at_b, at_p, root_eq}

-- Each row stands once.
abbrev pub Once : Tree → List Frame → Type 0
Once t fs = (k : ℕ) → count k t + above k fs ≤ 1

-- The child of a node that is `x` becomes `y`.
abbrev pub swapped : RbNode → ℕ → ℕ → RbNode
swapped n x y = if x == n.rb_left then with_child left n y else with_child right n y

swapped_eq :
    (s : Side) (n : RbNode) (x y : ℕ)
    → child s n ≡ x
    → child (other s) n ≢ x
    → swapped n x y ≡ with_child s n y
swapped_eq left n x y e o = rw (eq→== x n.rb_left (sym e)) refl
swapped_eq right n x y e o = rw (ne→== x n.rb_left (λ i. o (sym i))) refl

child_new : (s : Side) (n : RbNode) (y : ℕ) → child s (with_child s n y) ≡ y
child_new left n y = refl
child_new right n y = refl

child-other :
    (s : Side) (n : RbNode) (y : ℕ) → child (other s) (with_child s n y) ≡ child (other s) n
child-other left n y = refl
child-other right n y = refl

parent_kept : (s : Side) (n : RbNode) (y : ℕ) → (with_child s n y).rb_parent ≡ n.rb_parent
parent_kept left n y = refl
parent_kept right n y = refl

color_kept : (s : Side) (n : RbNode) (y : ℕ) → (with_child s n y).color_sibling ≡ n.color_sibling
color_kept left n y = refl
color_kept right n y = refl

-- The path with `y` as the child of its first node.
pub PathUp-put :
    (h h' : ℕ → RbNode) (root root' x y p : ℕ) (f : Frame) (fs : List Frame)
    → ((k : ℕ) → above k (f ∷ fs) ≤ 1)
    → ((k : ℕ) → 1 ≤ above k (f ∷ fs) → k ≢ p → h' k ≡ h k)
    → (p ≢ 0 → h' p ≡ with_child f.side (h p) y)
    → root' ≡ (if p == 0 then y else root)
    → PathUp h root x p (f ∷ fs)
    → PathUp h' root' y p (f ∷ fs)
PathUp-put h h' root root' x y p f fs once same new top up =
    let pk = up.0 in
    let key_nz = up.1 in
    let eq : h' f.key ≡ with_child f.side (h f.key) y =
      subst (λ z. h' z ≡ with_child f.side (h z) y) pk (new (λ e. key_nz (sym pk ∙ e))) in
    let root_same : root' ≡ root = top ∙ rw (ne→== p 0 (λ e. key_nz (sym pk ∙ e))) refl in
    let sib_same : Rep h' f.key (child (other f.side) (h f.key)) f.sib =
      Rep-same h h' f.key (child (other f.side) (h f.key)) f.sib
        (λ j n.
          same j (omega (arith, n)) λ e.
            omega (arith, once f.key, at_self f.key, subst (λ z. 1 ≤ count z f.sib) (e ∙ pk) n))
        up.4 in
    let rest : PathUp h' root' f.key (h f.key).rb_parent fs =
      subst (λ z. PathUp h' z f.key (h f.key).rb_parent fs) (sym root_same)
        (PathUp-same h h' root f.key (h f.key).rb_parent fs
          (λ j n.
            same j (omega (arith, n))
              λ e. omega (arith, once f.key, at_self f.key, subst (λ z. 1 ≤ above z fs) (e ∙ pk) n))
          up.5) in
    rw (eq, child_new, child-other, parent_kept, color_kept)
      (pk, key_nz, refl, up.3, sib_same, rest)

-- The path with `y` in the place of `x`.
pub PathUp-swapped :
    (h h' : ℕ → RbNode) (root root' x y p : ℕ) (fs : List Frame)
    → ((k : ℕ) → above k fs ≤ 1)
    → x ≢ 0
    → above x fs ≡ 0
    → ((k : ℕ) → 1 ≤ above k fs → k ≢ p → h' k ≡ h k)
    → (p ≢ 0 → h' p ≡ swapped (h p) x y)
    → root' ≡ (if p == 0 then y else root)
    → PathUp h root x p fs
    → PathUp h' root' y p fs
PathUp-swapped h h' root root' x y p [] once nz out same new top up =
    (sym (top ∙ rw up.1 refl), up.1)
PathUp-swapped h h' root root' x y p (f ∷ fs) once nz out same new top up =
    let apart : child (other f.side) (h f.key) ≢ x = λ e. omega (
      arith,
      out,
      subst (λ z. 1 ≤ count z f.sib) e
          (Rep-counted h f.key (child (other f.side) (h f.key)) f.sib up.4 (λ i. nz (sym e ∙ i))),
    ) in
    let eq : swapped (h p) x y ≡ with_child f.side (h p) y =
      subst (λ z. swapped (h z) x y ≡ with_child f.side (h z) y) (sym up.0)
        (swapped_eq f.side (h f.key) x y up.2 apart) in
    PathUp-put h h' root root' x y p f fs once same (λ n. new n ∙ eq) top up

-- A node with its child on the side `s`, or on the other side, and its parent written.
written_near :
    (s : Side) (n n' : RbNode) (v q : ℕ)
    → n' ≡ record (with_child s n v) { rb_parent = q }
    → (child s n' ≡ v)
      × (child (other s) n' ≡ child (other s) n)
      × (n'.rb_parent ≡ q)
      × (n'.color_sibling ≡ n.color_sibling)
written_near left n n' v q e = rw e (refl, refl, refl, refl)
written_near right n n' v q e = rw e (refl, refl, refl, refl)

written_far :
    (s : Side) (n n' : RbNode) (v q : ℕ)
    → n' ≡ record (with_child (other s) n v) { rb_parent = q }
    → (child s n' ≡ child s n)
      × (child (other s) n' ≡ v)
      × (n'.rb_parent ≡ q)
      × (n'.color_sibling ≡ n.color_sibling)
written_far left n n' v q e = rw e (refl, refl, refl, refl)
written_far right n n' v q e = rw e (refl, refl, refl, refl)

pub at_eq : (k x : ℕ) → k ≡ x → at k x ≡ 1
at_eq k x e = rw (eq→== k x e) refl

-- The tree at `x` with `y` under it on the other side, turned: `y` comes up and `x` under it.
module _ (s : Side) (t : Rbt) (p x y : ℕ) (c d : Bool) (a b e : Tree) (fs : List Frame)
    (rep : Rep t.nodes p x (mk s c a x (mk s d b y e))) (up : PathUp t.nodes t.rb_root x p fs)
    (once : Once (mk s c a x (mk s d b y e)) fs) where
  counted : (k : ℕ) → count k a + at k x + count k b + at k y + count k e + above k fs ≤ 1
  counted k = omega (arith, once k, count-mk s k c a x (mk s d b y e), count-mk s k d b y e)

  up_at : (p ≢ 0) → 1 ≤ above p fs
  up_at = go fs up
    where
      go : (gs : List Frame) → PathUp t.nodes t.rb_root x p gs → p ≢ 0 → 1 ≤ above p gs
      go [] u n = absurd (n u.1)
      go (g ∷ gs) u n = rw u.0 (omega (arith, at_self g.key))

  pub turned :
      Rep (rotate s t x).nodes p y (mk s d (mk s c a x b) y e)
      × PathUp (rotate s t x).nodes (rotate s t x).rb_root y p fs
      × Once (mk s d (mk s c a x b) y e) fs
      × ((rotate s t x).nodes 0 ≡ t.nodes 0)
  turned =
      let (x_eq, x_nz, x_up, x_red, a_rep, y_rep) =
        open_node t.nodes p x s c a x (mk s d b y e) rep in
      let (y_eq, y_nz, y_up, y_red, b_rep, e_rep) =
        open_node t.nodes x (child (other s) (t.nodes x)) s d b y e y_rep in
      let pb = child s (t.nodes y) in
      let b_in : pb ≢ 0 → 1 ≤ count pb b = Rep-counted t.nodes y pb b b_rep in
      let xy : x ≢ y = λ i. omega (arith, counted x, at_self x, at_eq x y i) in
      let xb : x ≢ pb = λ i. omega (
        arith,
        counted x,
        at_self x,
        subst (λ z. 1 ≤ count z b) (sym i) (b_in (λ z. x_nz (i ∙ z))),
      ) in
      let yb : y ≢ pb = λ i. omega (
        arith,
        counted y,
        at_self y,
        subst (λ z. 1 ≤ count z b) (sym i) (b_in (λ z. y_nz (i ∙ z))),
      ) in
      let px : p ≢ x = λ i. omega (
        arith,
        counted x,
        at_self x,
        subst (λ z. 1 ≤ above z fs) i (up_at (λ z. x_nz (sym i ∙ z))),
      ) in
      let py : p ≢ y = λ i. omega (
        arith,
        counted y,
        at_self y,
        subst (λ z. 1 ≤ above z fs) i (up_at (λ z. y_nz (sym i ∙ z))),
      ) in
      let p_b : p ≢ 0 → p ≢ pb = λ n i.
        omega
          (arith, counted p, up_at n, subst (λ z. 1 ≤ count z b) (sym i) (b_in (λ z. n (i ∙ z)))) in
      let h' = (rotate s t x).nodes in
      let keeps : (k : ℕ)
          → 1 ≤ count k a + count k b + count k e + above k fs
          → (1 ≤ count k b → k ≢ pb)
          → (1 ≤ above k fs → k ≢ p)
          → h' k ≡ t.nodes k =
        λ k n nb np.
          off s t x y pb p y_eq refl x_up xy xb yb px py p_b k
            (λ i. omega (arith, counted k, n, at_eq k x i))
            (λ i. omega (arith, counted k, n, at_eq k y i))
            (λ nz i. nb (subst (λ z. 1 ≤ count z b) (sym i) (b_in nz)) i)
            (λ nz i. np (subst (λ z. 1 ≤ above z fs) (sym i) (up_at nz)) i) in
      let (x_near, x_far, x_par, x_col) =
        written_far s (t.nodes x) (h' x) pb y
          (at_x s t x y pb p y_eq refl x_up xy xb yb px py p_b) in
      let (y_near, y_far, y_par, y_col) =
        written_near s (t.nodes y) (h' y) x p
          (at_y s t x y pb p y_eq refl x_up xy xb yb px py p_b) in
      let a_new : Rep h' x (child s (h' x)) a = rw x_near (
        Rep-same t.nodes h' x (child s (t.nodes x)) a
          (λ k n.
            keeps k (omega (arith, n)) (λ m i. omega (arith, counted k, n, m))
              (λ m i. omega (arith, counted k, n, m)))
          a_rep) in
      let e_new : Rep h' y (child (other s) (h' y)) e = rw y_far (
        Rep-same t.nodes h' y (child (other s) (t.nodes y)) e
          (λ k n.
            keeps k (omega (arith, n)) (λ m i. omega (arith, counted k, n, m))
              (λ m i. omega (arith, counted k, n, m)))
          e_rep) in
      let b_new : Rep h' x (child (other s) (h' x)) b = rw x_far (
        Rep-moved t.nodes h' y x pb b (λ k. omega (arith, counted k))
          (λ k n m. keeps k (omega (arith, n)) (λ o. m) (λ o i. omega (arith, counted k, n, o)))
          (at_b s t x y pb p y_eq refl x_up xy xb yb px py p_b) b_rep) in
      let x_new : Rep h' y x (mk s c a x b) =
        close_node h' y x s c a x b (refl, x_nz, x_par, rw x_col x_red, a_new, b_new) in
      let y_new : Rep h' p y (mk s d (mk s c a x b) y e) =
        close_node h' p y s d (mk s c a x b) y e
          (refl, y_nz, y_par, rw y_col y_red, rw y_near x_new, e_new) in
      (
        y_new,
        PathUp-swapped t.nodes h' t.rb_root (rotate s t x).rb_root x y p fs
            (λ k. omega (arith, counted k)) x_nz (omega (arith, counted x, at_self x))
            (λ k n m. keeps k (omega (arith, n)) (λ o i. omega (arith, counted k, n, o)) (λ o. m))
            (at_p s t x y pb p y_eq refl x_up xy xb yb px py p_b)
            (root_eq s t x y pb p y_eq refl x_up xy xb yb px py p_b) up,
        λ k. omega (arith, counted k, count-mk s k d (mk s c a x b) y e, count-mk s k c a x b),
        off s t x y pb p y_eq refl x_up xy xb yb px py p_b 0 (λ i. x_nz (sym i)) (λ i. y_nz (sym i))
            (λ nz i. nz (sym i)) (λ nz i. nz (sym i)),
      )
