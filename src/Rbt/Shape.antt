-- ===== src/Rbt/Shape.antt =====
-- A tree with the path above it: steps up and down, recolouring, and the order of the rows.
use mathlib.Core.List.{append_assoc}
use cross_db.Base.{
  ℕ, ◌+◌, ◌≤◌, ◌≡◌, ◌≢◌, refl, sym, ◌∙◌, Bool, true, false, List, [], ◌∷◌, arith, subst,
}
use cross_db.Rbt.{Rbt, RbNode, Side, left, right, other, child, is_red, redden, blacken}
use cross_db.Rbt.Tree.{
  Tree, rows, count, at, mk, Rep, Frame, plug, above, PathUp, count-mk, open_node, close_node,
  Rep-same, PathUp-same,
}
use cross_db.Rbt.Turn.{Once, at_eq}

abbrev pub frame : Side → Bool → ℕ → Tree → Frame
frame s c k b = record { side = s; red = c; key = k; sib = b }

-- The nodes hold the tree `u` at `x` under `p`, and above it the path `fs`.
abbrev pub Holds : Rbt → ℕ → ℕ → Tree → List Frame → Type 0
Holds t x p u fs = Rep t.nodes p x u × PathUp t.nodes t.rb_root x p fs × Once u fs

pub step_up :
    (t : Rbt) (x p : ℕ) (u : Tree) (f : Frame) (fs : List Frame)
    → Holds t x p u (f ∷ fs)
    → Holds t f.key (t.nodes f.key).rb_parent (mk f.side f.red u f.key f.sib) fs
step_up t x p u f fs (rep, up, once) = (
  close_node t.nodes (t.nodes f.key).rb_parent f.key f.side f.red u f.key f.sib (
    refl,
    up.1,
    refl,
    up.3,
    subst (λ z. Rep t.nodes f.key z u) (sym up.2) (subst (λ z. Rep t.nodes z x u) up.0 rep),
    up.4,
  ),
  up.5,
  λ k. omega (arith, once k, count-mk f.side k f.red u f.key f.sib),
)

pub step_down :
    (t : Rbt) (x p : ℕ) (s : Side) (c : Bool) (a : Tree) (k : ℕ) (b : Tree) (fs : List Frame)
    → Holds t x p (mk s c a k b) fs
    → Holds t (child s (t.nodes k)) k a (frame s c k b ∷ fs)
step_down t x p s c a k b fs (rep, up, once) =
    let (x_eq, nz, par, col, near, far) = open_node t.nodes p x s c a k b rep in
    (
      near,
      (
        refl,
        nz,
        refl,
        col,
        far,
        subst (λ z. PathUp t.nodes t.rb_root z (t.nodes k).rb_parent fs) x_eq
            (subst (λ z. PathUp t.nodes t.rb_root x z fs) (sym par) up),
      ),
      λ j. omega (arith, once j, count-mk s j c a k b),
    )

-- The same node, seen from the other side.
pub mk-other :
    (s : Side) (c : Bool) (a : Tree) (k : ℕ) (b : Tree) → mk (other s) c a k b ≡ mk s c b k a
mk-other left c a k b = refl
mk-other right c a k b = refl

pub rows-turn :
    (s : Side) (c d c' d' : Bool) (a b e : Tree) (x y : ℕ)
    → rows (mk s c a x (mk s d b y e)) ≡ rows (mk s d' (mk s c' a x b) y e)
rows-turn left c d c' d' a b e x y = sym (append_assoc (rows a) (x ∷ rows b) (y ∷ rows e))
rows-turn right c d c' d' a b e x y = append_assoc (rows e) (y ∷ rows b) (x ∷ rows a)

pub rows-mk :
    (s : Side) (c c' : Bool) (a a' : Tree) (k : ℕ) (b b' : Tree)
    → rows a ≡ rows a'
    → rows b ≡ rows b'
    → rows (mk s c a k b) ≡ rows (mk s c' a' k b')
rows-mk left c c' a a' k b b' e i = rw (e, i) refl
rows-mk right c c' a a' k b b' e i = rw (e, i) refl

pub rows-plug :
    (fs : List Frame) (u v : Tree) → rows u ≡ rows v → rows (plug fs u) ≡ rows (plug fs v)
rows-plug [] u v e = e
rows-plug (f ∷ fs) u v e =
    rows-plug fs (mk f.side f.red u f.key f.sib) (mk f.side f.red v f.key f.sib)
      (rows-mk f.side f.red f.red u v f.key f.sib f.sib e refl)

-- Nodes that differ in the colour of `x` only.
abbrev pub Recolored : (ℕ → RbNode) → (ℕ → RbNode) → ℕ → Bool → Type 0
Recolored h h' x c =
    ((k : ℕ) → k ≢ x → h' k ≡ h k)
    × ((h' x).rb_left ≡ (h x).rb_left)
    × ((h' x).rb_right ≡ (h x).rb_right)
    × ((h' x).rb_parent ≡ (h x).rb_parent)
    × (is_red h' x ≡ c)

pub redden-Recolored : (h : ℕ → RbNode) (x : ℕ) → Recolored h (redden h x) x true
redden-Recolored h x = (λ k n. ground arith, ground arith, ground arith, ground arith, ground arith)

pub blacken-Recolored : (h : ℕ → RbNode) (x : ℕ) → Recolored h (blacken h x) x false
blacken-Recolored h x =
    (λ k n. ground arith, ground arith, ground arith, ground arith, ground arith)

child_same :
    (s : Side) (n n' : RbNode)
    → n'.rb_left ≡ n.rb_left
    → n'.rb_right ≡ n.rb_right
    → child s n' ≡ child s n
child_same left n n' l r = l
child_same right n n' l r = r

-- The focus in another colour.
pub recolor :
    (t : Rbt) (h' : ℕ → RbNode) (x p : ℕ) (s : Side) (c c' : Bool) (a : Tree) (k : ℕ) (b : Tree)
    (fs : List Frame)
    → Recolored t.nodes h' k c'
    → Holds t x p (mk s c a k b) fs
    → Holds (record t { nodes = h' }) x p (mk s c' a k b) fs
recolor t h' x p s c c' a k b fs (same, lf, rt, par, col) (rep, up, once) =
    let (x_eq, nz, k_par, k_col, near, far) = open_node t.nodes p x s c a k b rep in
    let counted : (j : ℕ) → count j a + at j k + count j b + above j fs ≤ 1 =
      λ j. omega (arith, once j, count-mk s j c a k b) in
    let keeps : (j : ℕ) → 1 ≤ count j a + count j b + above j fs → h' j ≡ t.nodes j =
      λ j m. same j (λ i. omega (arith, counted j, m, at_eq j k i)) in
    (
      close_node h' p x s c' a k b (
        x_eq,
        nz,
        par ∙ k_par,
        col,
        rw (child_same s (t.nodes k) (h' k) lf rt) (
            Rep-same t.nodes h' k (child s (t.nodes k)) a (λ j m. keeps j (omega (arith, m))) near),
        rw (child_same (other s) (t.nodes k) (h' k) lf rt) (
            Rep-same t.nodes h' k (child (other s) (t.nodes k)) b
              (λ j m. keeps j (omega (arith, m))) far),
      ),
      PathUp-same t.nodes h' t.rb_root x p fs (λ j m. keeps j (omega (arith, m))) up,
      λ j. omega (arith, counted j, count-mk s j c' a k b),
    )
