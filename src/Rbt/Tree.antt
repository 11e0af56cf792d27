-- ===== src/Rbt/Tree.antt =====
-- What the nodes hold: a tree under a parent, and the path from a node up to the root.
use cross_db.Base.{
  ℕ, ◌+◌, ◌≤◌, ◌≡◌, ◌≢◌, refl, sym, ◌∙◌, Bool, ◌==◌, if◌then◌else◌, List, [], ◌∷◌, ◌++◌, arith,
  subst,
}
use cross_db.Rbt.{RbNode, Side, left, right, other, child, is_red}

-- A node with its colour (true for red), the nodes before it, its row, and the nodes behind it.
pub data Tree : Type 0 where
  tip : Tree
  bin : Bool → Tree → ℕ → Tree → Tree

-- The rows in their order.
abbrev pub rows : Tree → List ℕ
rows tip = []
rows (bin c l k r) = rows l ++ k ∷ rows r

-- How often a row stands in a tree.
abbrev pub at : ℕ → ℕ → ℕ
at k x = if k == x then 1 else 0

abbrev pub count : ℕ → Tree → ℕ
count k tip = 0
count k (bin c l x r) = count k l + at k x + count k r

-- A node with the subtree `a` on the side `s`.
abbrev pub mk : Side → Bool → Tree → ℕ → Tree → Tree
mk left c a k b = bin c a k b
mk right c a k b = bin c b k a

-- `x` points to the tree, and its parent is `p`.
abbrev pub Rep : (ℕ → RbNode) → ℕ → ℕ → Tree → Type 0
Rep h p x tip = x ≡ 0
Rep h p x (bin c l k r) =
    (x ≡ k)
    × (k ≢ 0)
    × ((h k).rb_parent ≡ p)
    × (is_red h k ≡ c)
    × Rep h k (h k).rb_left l
    × Rep h k (h k).rb_right r

-- A node above: the side on which the path comes up to it, and its other subtree.
pub record Frame : Type 0 where
  pub side : Side
  pub red : Bool
  pub key : ℕ
  pub sib : Tree

abbrev pub plug : List Frame → Tree → Tree
plug [] t = t
plug (f ∷ fs) t = plug fs (mk f.side f.red t f.key f.sib)

abbrev pub above : ℕ → List Frame → ℕ
above k [] = 0
above k (f ∷ fs) = at k f.key + count k f.sib + above k fs

-- `x` is where the path begins, and `p` is the node above it.
abbrev pub PathUp : (ℕ → RbNode) → ℕ → ℕ → ℕ → List Frame → Type 0
PathUp h root x p [] = (x ≡ root) × (p ≡ 0)
PathUp h root x p (f ∷ fs) =
    (p ≡ f.key)
    × (f.key ≢ 0)
    × (child f.side (h f.key) ≡ x)
    × (is_red h f.key ≡ f.red)
    × Rep h f.key (child (other f.side) (h f.key)) f.sib
    × PathUp h root f.key (h f.key).rb_parent fs

pub at_self : (k : ℕ) → at k k ≡ 1
at_self k = ground arith

pub count-mk :
    (s : Side) (k : ℕ) (c : Bool) (a : Tree) (x : ℕ) (b : Tree)
    → count k (mk s c a x b) ≡ count k a + at k x + count k b
count-mk left k c a x b = refl
count-mk right k c a x b = omega arith

-- The parts of a node, by the sides.
abbrev pub NodeAt : (ℕ → RbNode) → ℕ → ℕ → Side → Bool → Tree → ℕ → Tree → Type 0
NodeAt h p x s c a k b =
    (x ≡ k)
    × (k ≢ 0)
    × ((h k).rb_parent ≡ p)
    × (is_red h k ≡ c)
    × Rep h k (child s (h k)) a
    × Rep h k (child (other s) (h k)) b

pub open_node :
    (h : ℕ → RbNode) (p x : ℕ) (s : Side) (c : Bool) (a : Tree) (k : ℕ) (b : Tree)
    → Rep h p x (mk s c a k b)
    → NodeAt h p x s c a k b
open_node h p x left c a k b r = r
open_node h p x right c a k b r = (r.0, r.1, r.2, r.3, r.5, r.4)

pub close_node :
    (h : ℕ → RbNode) (p x : ℕ) (s : Side) (c : Bool) (a : Tree) (k : ℕ) (b : Tree)
    → NodeAt h p x s c a k b
    → Rep h p x (mk s c a k b)
close_node h p x left c a k b r = r
close_node h p x right c a k b r = (r.0, r.1, r.2, r.3, r.5, r.4)

-- Nodes that are the same on the rows hold the same tree.
pub Rep-same :
    (h h' : ℕ → RbNode) (p x : ℕ) (t : Tree)
    → ((k : ℕ) → 1 ≤ count k t → h' k ≡ h k)
    → Rep h p x t
    → Rep h' p x t
Rep-same h h' p x tip same r = r
Rep-same h h' p x (bin c l k r) same rep =
    let eq = same k (omega (arith, at_self k)) in
    rw eq (
      rep.0,
      rep.1,
      rep.2,
      rep.3,
      Rep-same h h' k (h k).rb_left l (λ j n. same j (omega (arith, n))) rep.4,
      Rep-same h h' k (h k).rb_right r (λ j n. same j (omega (arith, n))) rep.5,
    )

-- The root of a tree is one of its rows.
pub Rep-counted : (h : ℕ → RbNode) (p x : ℕ) (t : Tree) → Rep h p x t → x ≢ 0 → 1 ≤ count x t
Rep-counted h p x tip rep n = absurd (n rep)
Rep-counted h p x (bin c l k r) rep n = rw rep.0 (omega (arith, at_self k))

-- The root of a tree with another parent.
pub Rep-moved :
    (h h' : ℕ → RbNode) (p q x : ℕ) (t : Tree)
    → ((k : ℕ) → count k t ≤ 1)
    → ((k : ℕ) → 1 ≤ count k t → k ≢ x → h' k ≡ h k)
    → (x ≢ 0 → h' x ≡ record (h x) { rb_parent = q })
    → Rep h p x t
    → Rep h' q x t
Rep-moved h h' p q x tip once same new rep = rep
Rep-moved h h' p q x (bin c l k r) once same new rep =
    let nonzero : x ≢ 0 = λ e. rep.1 (sym rep.0 ∙ e) in
    let eq : h' k ≡ record (h k) { rb_parent = q } =
      subst (λ z. h' z ≡ record (h z) { rb_parent = q }) rep.0 (new nonzero) in
    let lower = λ (j : ℕ) (n : 1 ≤ count j l).
      same j (omega (arith, n))
        λ e. omega (arith, once k, at_self k, subst (λ z. 1 ≤ count z l) (e ∙ rep.0) n) in
    let higher = λ (j : ℕ) (n : 1 ≤ count j r).
      same j (omega (arith, n))
        λ e. omega (arith, once k, at_self k, subst (λ z. 1 ≤ count z r) (e ∙ rep.0) n) in
    rw eq (
      rep.0,
      rep.1,
      refl,
      rep.3,
      Rep-same h h' k (h k).rb_left l lower rep.4,
      Rep-same h h' k (h k).rb_right r higher rep.5,
    )

pub PathUp-same :
    (h h' : ℕ → RbNode) (root x p : ℕ) (fs : List Frame)
    → ((k : ℕ) → 1 ≤ above k fs → h' k ≡ h k)
    → PathUp h root x p fs
    → PathUp h' root x p fs
PathUp-same h h' root x p [] same up = up
PathUp-same h h' root x p (f ∷ fs) same up =
    let eq = same f.key (omega (arith, at_self f.key)) in
    rw eq (
      up.0,
      up.1,
      up.2,
      up.3,
      Rep-same h h' f.key (child (other f.side) (h f.key)) f.sib (λ j n. same j (omega (arith, n)))
          up.4,
      PathUp-same h h' root f.key (h f.key).rb_parent fs (λ j n. same j (omega (arith, n))) up.5,
    )
