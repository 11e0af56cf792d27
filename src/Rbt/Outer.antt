-- ===== src/Rbt/Outer.antt =====
-- `xdb_rbtree_rem` of a node with at most one child.
use mathlib.Core.Option
use mathlib.Core.List.{append_assoc, append-nil}
use cross_db.Base.{
  ℕ, zero, suc, ◌-◌, ◌<◌, ◌≡◌, ◌≢◌, refl, sym, ap, ◌∙◌, Bool, true, false, some, List, ◌++◌, subst,
  length, eq→==, ne→==, inl, inr, ◌⊎◌,
}
use cross_db.Rbt.{Rbt, Side, left, right, other, child, is_red}
use cross_db.Rbt.Remove.{transplant, rem_node}
use cross_db.Rbt.Tree.{Tree, tip, bin, rows, mk, Frame, plug}
use cross_db.Rbt.Shape.{Holds}
use cross_db.Rbt.Sound.{Sound}
use cross_db.Rbt.Step.{NullBlack}
use cross_db.Rbt.Ended.{IsTree}
use cross_db.Rbt.Landing.{SoundAround}
use cross_db.Rbt.Cut.{transplant_lem, repaired, PathOver, repaired-IsTree}
use cross_db.Rbt.Around.{Around}

-- The tree and the path that are left where the node goes.
pub place-Sound :
    (s : Side) (c : Bool) (z : ℕ) (b : Tree) (fs : List Frame)
    → SoundAround (mk s c tip z b) fs
    → (n : ℕ) × Sound b n × PathOver c b n fs
place-Sound left true z b fs (n, su, path, under) = (n, su.3, (su.1, path))
place-Sound right true z b fs (n, su, path, under) = (n, su.2, (su.0, path))
place-Sound left false z b fs (zero, su, path, under) = absurd su
place-Sound left false z b fs (suc n, su, path, under) = (n, su.1, path)
place-Sound right false z b fs (zero, su, path, under) = absurd su
place-Sound right false z b fs (suc n, su, path, under) = (n, su.0, path)

-- A node with one child at most, that on the side `other s`, has it in its place, and the loop ends.
module _ (turns : ℕ) (s : Side) (t : Rbt) (z x p : ℕ) (c : Bool) (b : Tree) (fs : List Frame)
    (holds : Holds t x p (mk s c tip z b) fs) where
  lifted :
      NullBlack t
      → SoundAround (mk s c tip z b) fs
      → length fs < turns
      → let v = child (other s) (t.nodes z) in
        (t' : Rbt) × (repaired turns c (transplant t z v) v ≡ some t')
        × IsTree t' (rows (plug fs b))
  lifted null sound enough =
      let (q, kept, noted) = transplant_lem s t x p z c b fs holds null in
      let (n, sb, path) = place-Sound s c z b fs sound in
      repaired-IsTree turns (transplant t z (child (other s) (t.nodes z))) q
        (child (other s) (t.nodes z)) p c b n fs kept noted sb path enough

-- The node's end: the tree is the same but for the number of nodes.
unfoldable pub counted : Rbt → Rbt
counted t = record t { node_count = t.node_count - 1 }

pub counted-IsTree : (t : Rbt) (xs : List ℕ) → IsTree t xs → IsTree (counted t) xs
unfolding counted
counted-IsTree t xs i = record {
  tree = i.tree;
  height = i.height;
  held = i.held;
  once = i.once;
  in_order = i.in_order;
  black = i.black;
  sound = i.sound;
  null_black = i.null_black;
}

module _ (turns : ℕ) (t t' : Rbt) (z : ℕ) (c : Bool) (color : is_red t.nodes z ≡ c) where
  takes_right :
      (t.nodes z).rb_left ≡ 0
      → repaired turns c (transplant t z (t.nodes z).rb_right) (t.nodes z).rb_right ≡ some t'
      → rem_node turns t z ≡ some (counted t')
  unfolding rem_node counted Option.bind
  takes_right l e = rw (eq→== (t.nodes z).rb_left 0 l, color, e) refl

  takes_left :
      (t.nodes z).rb_left ≢ 0
      → (t.nodes z).rb_right ≡ 0
      → repaired turns c (transplant t z (t.nodes z).rb_left) (t.nodes z).rb_left ≡ some t'
      → rem_node turns t z ≡ some (counted t')
  unfolding rem_node counted Option.bind
  takes_left l r e =
      rw (ne→== (t.nodes z).rb_left 0 l, eq→== (t.nodes z).rb_right 0 r, color, e) refl

pub taken :
    (turns : ℕ) (t : Rbt) (z x p : ℕ) (c : Bool) (l r : Tree) (fs : List Frame) (a : Around fs)
    → Holds t x p (bin c l z r) fs
    → SoundAround (bin c l z r) fs
    → NullBlack t
    → ((t.nodes z).rb_left ≡ 0) ⊎ ((t.nodes z).rb_right ≡ 0)
    → length fs < turns
    → (t' : Rbt) × (rem_node turns t z ≡ some t')
      × IsTree t' ((a.pre ++ rows l) ++ (rows r ++ a.post))
taken turns t z x p c tip r fs a holds sound null one enough =
    let (t', runs, is_tree) = lifted turns left t z x p c r fs holds null sound enough in
    (
      counted t',
      takes_right turns t t' z c holds.0.3 holds.0.4 runs,
      counted-IsTree t' _ (
          subst (λ v. IsTree t' v)
            (a.order r ∙ ap (λ v. v ++ (rows r ++ a.post)) (sym (append-nil a.pre))) is_tree),
    )
taken turns t z x p c (bin d i j k) tip fs a holds sound null one enough =
    let l = bin d i j k in
    let left_nz : (t.nodes z).rb_left ≢ 0 = λ e. holds.0.4.1 (sym holds.0.4.0 ∙ e) in
    let (t', runs, is_tree) = lifted turns right t z x p c l fs holds null sound enough in
    (
      counted t',
      takes_left turns t t' z c holds.0.3 left_nz holds.0.5 runs,
      counted-IsTree t' _
          (subst (λ v. IsTree t' v) (a.order l ∙ sym (append_assoc a.pre (rows l) a.post)) is_tree),
    )
taken turns t z x p c (bin d i j k) (bin d2 i2 j2 k2) fs a holds sound null (inl e) enough =
    absurd (holds.0.4.1 (sym holds.0.4.0 ∙ e))
taken turns t z x p c (bin d i j k) (bin d2 i2 j2 k2) fs a holds sound null (inr e) enough =
    absurd (holds.0.5.1 (sym holds.0.5.0 ∙ e))
