-- ===== src/Rbt/Inner.antt =====
-- `xdb_rbtree_rem` of a node with two children: the least row behind it takes its place.
use mathlib.Core.List.{append_assoc, append-nil}
use cross_db.Base.{
  ℕ, zero, suc, ◌≤◌, ◌≡◌, ◌≢◌, refl, sym, ap, ◌∙◌, Bool, some, List, [], ◌∷◌, ◌++◌, arith, subst,
  eq→==, ne→==,
}
use cross_db.Rbt.{Rbt, RbNode, left, right, child, set_child, set_parent}
use cross_db.Rbt.Query.{outermost}
use cross_db.Rbt.Remove.{transplant, rem_inner, placed}
use cross_db.Rbt.Descend.{depth, max_left}
use cross_db.Rbt.Tree.{Tree, tip, bin, rows, mk, Rep, Frame, plug}
use cross_db.Rbt.Shape.{frame, Holds, step_up, step_down}

-- The least row of a tree: the path down to it, its colour and its right subtree.
pub record Least (t : Tree) : Type 0 where
  pub down : List Frame
  pub red : Bool
  pub key : ℕ
  pub rest : Tree
  pub whole_eq : plug down (bin red tip key rest) ≡ t
  pub in_order : rows t ≡ key ∷ rows (plug down rest)

least :
    (c : Bool) (l : Tree) (k : ℕ) (r : Tree) (fs : List Frame) (tail : List ℕ)
    → ((w : Tree) → rows (plug fs w) ≡ rows w ++ tail)
    → Least (plug fs (bin c l k r))
least c tip k r fs tail h = record {
  down = fs;
  red = c;
  key = k;
  rest = r;
  whole_eq = refl;
  in_order = h (bin c tip k r) ∙ ap (λ v. k ∷ v) (sym (h r));
}
least c (bin d a j b) k r fs tail h =
    least d a j b (frame left c k r ∷ fs) (k ∷ rows r ++ tail)
      (λ w. h (bin c w k r) ∙ append_assoc (rows w) (k ∷ rows r) tail)

pub least_of : (c : Bool) (l : Tree) (k : ℕ) (r : Tree) → Least (bin c l k r)
least_of c l k r = least c l k r [] [] (λ w. sym (append-nil (rows w)))

-- `xdb_rb_minimum` gives the least row.
outermost_from :
    (turns : ℕ) (h : ℕ → RbNode) (p x : ℕ) (c : Bool) (l : Tree) (k : ℕ) (r : Tree)
    (fs : List Frame) (tail : List ℕ) (o : (w : Tree) → rows (plug fs w) ≡ rows w ++ tail)
    → Rep h p x (bin c l k r)
    → depth (bin c l k r) ≤ turns
    → outermost left turns h x ≡ some (least c l k r fs tail o).key
unfolding outermost least
outermost_from zero h p x c l k r fs tail o rep m = absurd (omega arith)
outermost_from (suc turns) h p x c tip k r fs tail o rep m =
    rw (eq→== (h x).rb_left 0 (ap (λ v. (h v).rb_left) rep.0 ∙ rep.4)) (ap some rep.0)
outermost_from (suc turns) h p x c (bin d a j b) k r fs tail o rep m =
    let l_eq : (h x).rb_left ≡ j = ap (λ v. (h v).rb_left) rep.0 ∙ rep.4.0 in
    rw (ne→== (h x).rb_left 0 (λ e. rep.4.1 (sym l_eq ∙ e))) (
      outermost_from turns h k (h x).rb_left d a j b (frame left c k r ∷ fs) (k ∷ rows r ++ tail)
        (λ w. o (bin c w k r) ∙ append_assoc (rows w) (k ∷ rows r) tail)
        (subst (λ v. Rep h k v (bin d a j b)) (ap (λ v. (h v).rb_left) (sym rep.0)) rep.4)
        (omega (arith, m, max_left (depth (bin d a j b)) (depth r))))

pub outermost_least :
    (turns : ℕ) (h : ℕ → RbNode) (p x : ℕ) (c : Bool) (l : Tree) (k : ℕ) (r : Tree)
    → Rep h p x (bin c l k r)
    → depth (bin c l k r) ≤ turns
    → outermost left turns h x ≡ some (least_of c l k r).key
unfolding least_of
outermost_least turns h p x c l k r rep m =
    outermost_from turns h p x c l k r [] [] (λ w. sym (append-nil (rows w))) rep m

pub inner_direct :
    (t : Rbt) (z y : ℕ)
    → (t.nodes y).rb_parent ≡ z
    → rem_inner t z y ≡ (
      placed (record t { nodes = set_parent t.nodes (t.nodes y).rb_right y }) z y,
      (t.nodes y).rb_right,
    )
unfolding rem_inner
inner_direct t z y e = rw (eq→== (t.nodes y).rb_parent z e) refl

unfoldable pub far_off : Rbt → ℕ → ℕ → Rbt
far_off u z y =
    let n = set_child right u.nodes y (u.nodes z).rb_right in
    record u { nodes = set_parent n (n y).rb_right y }

pub inner_far :
    (t : Rbt) (z y : ℕ)
    → (t.nodes y).rb_parent ≢ z
    → rem_inner t z y
      ≡ (placed (far_off (transplant t y (t.nodes y).rb_right) z y) z y, (t.nodes y).rb_right)
unfolding rem_inner far_off
inner_far t z y e = rw (ne→== (t.nodes y).rb_parent z e) refl

-- Down a path and up again.
pub dive :
    (t : Rbt) (x p : ℕ) (ds : List Frame) (v : Tree) (fs : List Frame)
    → Holds t x p (plug ds v) fs
    → (x' p' : ℕ) × Holds t x' p' v (ds ++ fs)
dive t x p [] v fs h = (x, p, h)
dive t x p (f ∷ ds) v fs h =
    let (x', p', held) = dive t x p ds (mk f.side f.red v f.key f.sib) fs h in
    (
      child f.side (t.nodes f.key),
      f.key,
      step_down t x' p' f.side f.red v f.key f.sib (ds ++ fs) held,
    )

pub rise :
    (t : Rbt) (x p : ℕ) (ds : List Frame) (v : Tree) (fs : List Frame)
    → Holds t x p v (ds ++ fs)
    → (x' p' : ℕ) × Holds t x' p' (plug ds v) fs
rise t x p [] v fs h = (x, p, h)
rise t x p (f ∷ ds) v fs h =
    rise t f.key (t.nodes f.key).rb_parent ds (mk f.side f.red v f.key f.sib) fs
      (step_up t x p v f (ds ++ fs) h)
