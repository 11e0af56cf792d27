-- ===== src/Rbt/Hang.antt =====
-- The new node of `xdb_rbtree_add` under the node where the descent has ended.
use Prim.Native.Nat.{Ordering}
use cross_db.Base.{
  ℕ, ◌+◌, ◌≤◌, ◌^◌, ◌≡◌, ◌≢◌, refl, sym, ◌∙◌, true, ◌==◌, if◌then◌else◌, List, [], ◌∷◌, arith,
  subst, Bool-cases, inl, inr, ==→eq,
}
use cross_db.Rbt.{Rbt, RbNode, Side, left, right, with_child, hang}
use cross_db.Rbt.Tree.{tip, bin, Frame, above, PathUp, at, at_self}
use cross_db.Rbt.Turn.{PathUp-put, at_eq}
use cross_db.Rbt.Shape.{Holds}

-- The side on which the new node is put.
abbrev pub side_of : Ordering → Side
side_of Ordering.lt = left
side_of _ = right

-- The last comparison tells the side of the path.
abbrev pub Hung : Ordering → List Frame → Type 0
Hung last [] = Unit
Hung last (f ∷ fs) = f.side ≡ side_of last

-- What `hang` writes.
module _ (t : Rbt) (y z : ℕ) (zy : z ≢ y) where
  hang_new :
      (last : Ordering)
      → (hang t y last z).nodes z
        ≡ record { rb_left = 0; rb_right = 0; rb_parent = y; color_sibling = 2 ^ 31 }
  unfolding hang
  hang_new last = ground arith

  hang_above :
      (last : Ordering)
      → y ≢ 0
      → (hang t y last z).nodes y ≡ with_child (side_of last) (t.nodes y) z
  unfolding hang
  hang_above last n = ground arith

  hang_off :
      (last : Ordering) (k : ℕ) → k ≢ z → (y ≢ 0 → k ≢ y) → (hang t y last z).nodes k ≡ t.nodes k
  unfolding hang
  hang_off last k n m = ground arith

  hang_root : (last : Ordering) → (hang t y last z).rb_root ≡ (if y == 0 then z else t.rb_root)
  unfolding hang
  hang_root last = ground arith

pub in_path :
    (h : ℕ → RbNode) (root x y : ℕ) (fs : List Frame)
    → PathUp h root x y fs
    → y ≢ 0
    → 1 ≤ above y fs
in_path h root x y [] up n = absurd (n up.1)
in_path h root x y (f ∷ fs) up n = rw up.0 (omega (arith, at_self f.key))

Hung-PathUp :
    (t : Rbt) (y z : ℕ) (last : Ordering) (fs : List Frame)
    → z ≢ y
    → Hung last fs
    → Holds t 0 y tip fs
    → above z fs ≡ 0
    → PathUp (hang t y last z).nodes (hang t y last z).rb_root z y fs
Hung-PathUp t y z last [] zy hung (rep, up, once) new =
    (sym (hang_root t y z zy last ∙ rw up.1 refl), up.1)
Hung-PathUp t y z last (f ∷ fs) zy hung (rep, up, once) new =
    PathUp-put t.nodes (hang t y last z).nodes t.rb_root (hang t y last z).rb_root 0 z y f fs
      (λ k. omega (arith, once k))
      (λ k n m.
        hang_off t y z zy last k (λ e. omega (arith, n, new, subst (λ v. 1 ≤ above v (f ∷ fs)) e n))
          (λ i. m))
      (λ n. rw hung (hang_above t y z zy last n)) (hang_root t y z zy last) up

-- The new node is red and alone.
pub hang-Holds :
    (t : Rbt) (y z : ℕ) (last : Ordering) (fs : List Frame)
    → Hung last fs
    → Holds t 0 y tip fs
    → z ≢ 0
    → above z fs ≡ 0
    → Holds (hang t y last z) z y (bin true tip z tip) fs × ((hang t y last z).nodes 0 ≡ t.nodes 0)
hang-Holds t y z last fs hung holds nz new =
    let zy : z ≢ y = λ e. omega (
      arith,
      new,
      subst (λ v. 1 ≤ above v fs) (sym e)
          (in_path t.nodes t.rb_root 0 y fs holds.1 (λ i. nz (e ∙ i))),
    ) in
    let z_eq = hang_new t y z zy last in
    (
      (
        rw z_eq (refl, nz, refl, refl, refl, refl),
        Hung-PathUp t y z last fs zy hung holds new,
        once_new holds.2,
      ),
      hang_off t y z zy last 0 (λ e. nz (sym e)) (λ n e. n (sym e)),
    )
  where
    once_new : ((k : ℕ) → 0 + above k fs ≤ 1) → (k : ℕ) → 0 + at k z + 0 + above k fs ≤ 1
    once_new once k = elim (Bool-cases (k == z)) [
      | inl e ↦
          omega
            (arith, subst (λ v. above v fs ≡ 0) (sym (==→eq k z e)) new, at_eq k z (==→eq k z e))
      | inr e ↦ rw e (omega (arith, once k))
    ]
