-- ===== src/Rbt/Inside.antt =====
-- `rem_inner` takes the row `z` with two children out of the tree.
use cross_db.Base.{ℕ, ◌≡◌, ◌≢◌, sym, ◌∙◌, Bool, List, [], ◌∷◌, ◌++◌, arith, subst}
use cross_db.Rbt.{Rbt, RbNode, Side, left, right, child, set_parent}
use cross_db.Rbt.Remove.{transplant, placed, rem_inner}
use cross_db.Rbt.Tree.{Tree, tip, bin, mk, Rep, Frame, plug, PathUp, at_self}
use cross_db.Rbt.Turn.{at_eq}
use cross_db.Rbt.Shape.{frame, Holds, step_down}
use cross_db.Rbt.Step.{NullBlack}
use cross_db.Rbt.Delete.{Kept}
use cross_db.Rbt.Add.{count-plug}
use cross_db.Rbt.Fixup.{same_root}
use cross_db.Rbt.Cut.{transplant_lem}
use cross_db.Rbt.Placed.{Prepared, placed_lem}
use cross_db.Rbt.Inner.{inner_direct, inner_far, far_off, dive, rise}
use cross_db.Rbt.Replace.{direct-Prepared, far-Prepared, above-append}

-- The node above the end of a path that starts below `y`.
top_key : List Frame → ℕ → ℕ
top_key [] y = y
top_key (d ∷ ds) y = d.key

top_at :
    (h : ℕ → RbNode) (root x p : ℕ) (ds : List Frame) (s : Side) (c : Bool) (y : ℕ) (a : Tree)
    (fs : List Frame)
    → PathUp h root x p (ds ++ frame s c y a ∷ fs)
    → p ≡ top_key ds y
unfolding top_key
top_at h root x p [] s c y a fs up = up.0
top_at h root x p (d ∷ ds) s c y a fs up = up.0

-- The tree behind the removal, where `y` stands and its own place is left to `rest`.
abbrev pub Replaced : (Rbt × ℕ) → ℕ → Bool → Tree → Tree → List Frame → List Frame → Type 0
Replaced out y c a rest ds fs =
    (q : ℕ) × (p : ℕ) × Kept out.0 q out.1 p rest (ds ++ frame right c y a ∷ fs)
    × (out.1 ≡ 0 → q ≡ p)

into_place :
    (t : Rbt) (q z y p x : ℕ) (c : Bool) (a rest : Tree) (ds fs : List Frame)
    → Prepared t q z y p c a (plug ds rest) fs
    → (x ≡ 0 → q ≡ top_key ds y)
    → ((h : ℕ → RbNode) (p' x' : ℕ) → Rep h p' x' rest → x' ≡ x)
    → Replaced (placed t z y, x) y c a rest ds fs
into_place t q z y p x c a rest ds fs ready noted same =
    let t' = placed t z y in
    let b = plug ds rest in
    let k = placed_lem t q z y p c a b fs ready in
    let (x', p', held) =
      dive t' (child right (t'.nodes y)) y ds rest (frame right c y a ∷ fs)
        (step_down t' y p right c b y a fs k.0) in
    (
      q,
      p',
      (
        subst (λ v. Holds t' v p' rest (ds ++ frame right c y a ∷ fs)) (same t'.nodes p' x' held.0)
            held,
        k.1,
        k.2,
      ),
      λ e. noted e ∙ sym (top_at t'.nodes t'.rb_root x' p' ds right c y a fs held.1),
    )

-- No pointer to the tree is NULL.
abbrev pub Tall : Tree → Type 0
Tall u = (h : ℕ → RbNode) (p x : ℕ) → Rep h p x u → x ≢ 0

pub Tall-bin : (c : Bool) (l : Tree) (k : ℕ) (r : Tree) → Tall (bin c l k r)
Tall-bin c l k r h p x rep e = rep.1 (sym rep.0 ∙ e)

Tall-mk : (s : Side) (c : Bool) (a : Tree) (k : ℕ) (b : Tree) → Tall (mk s c a k b)
Tall-mk left c a k b = Tall-bin c a k b
Tall-mk right c a k b = Tall-bin c b k a

Tall-plug : (ds : List Frame) (v : Tree) → Tall v → Tall (plug ds v)
Tall-plug [] v tall = tall
Tall-plug (d ∷ ds) v tall =
    Tall-plug ds (mk d.side d.red v d.key d.sib) (Tall-mk d.side d.red v d.key d.sib)

null_noted : (h : ℕ → RbNode) (x y : ℕ) → x ≡ 0 → (set_parent h x y 0).rb_parent ≡ y
null_noted h x y e = ground (arith, e)

-- The least row `y` behind `z` takes its place.
pub inside :
    (t : Rbt) (x p z y : ℕ) (c cy : Bool) (a rest : Tree) (ds fs : List Frame)
    → Holds t x p (bin c a z (plug ds (bin cy tip y rest))) fs
    → NullBlack t
    → Tall a
    → Replaced (rem_inner t z y) y c a rest ds fs
unfolding top_key
inside t x p z y c cy a rest [] fs holds null tall =
    let v = (t.nodes y).rb_right in
    let y_rep = holds.0.5 in
    let t1 : Rbt = record t { nodes = set_parent t.nodes v y } in
    subst (λ o. Replaced o y c a rest [] fs) (sym (inner_direct t z y y_rep.2))
      (into_place t1 (t1.nodes 0).rb_parent z y p v c a rest [] fs
        (direct-Prepared t x p z y c cy a rest fs holds null
          (tall t.nodes z (t.nodes z).rb_left holds.0.4))
        (λ e. null_noted t.nodes v y e)
        (λ h p' x' rep. same_root h t.nodes p' y x' v rest rep y_rep.5))
inside t x p z y c cy a rest (d ∷ ds) fs holds null tall =
    let v = (t.nodes y).rb_right in
    let gs = frame right c z a ∷ fs in
    let (xy, yp, at_y) =
      dive t (child right (t.nodes z)) z (d ∷ ds) (bin cy tip y rest) gs
        (step_down t x p right c (plug (d ∷ ds) (bin cy tip y rest)) z a fs holds) in
    let top = top_at t.nodes t.rb_root xy yp (d ∷ ds) right c z a fs at_y.1 in
    let far : (t.nodes y).rb_parent ≢ z = λ e. omega (
      arith,
      at_y.2 z,
      above-append z (d ∷ ds) gs,
      at_self z,
      at_eq z d.key (sym e ∙ at_y.0.2 ∙ top),
    ) in
    let u = transplant t y v in
    let (q, kept, noted) = transplant_lem left t xy yp y cy rest ((d ∷ ds) ++ gs) at_y null in
    let (r, p', up) = rise u v yp (d ∷ ds) rest gs kept.0 in
    let r_nz : r ≢ 0 =
      Tall-plug ds (mk d.side d.red rest d.key d.sib) (Tall-mk d.side d.red rest d.key d.sib)
        u.nodes p' r up.0 in
    let ready =
      far-Prepared u q r p' z y c a (plug (d ∷ ds) rest) fs (up, kept.1, kept.2) at_y.0.1 r_nz tall
        (λ k. omega (arith, at_y.2 k, above-append k (d ∷ ds) gs, count-plug (d ∷ ds) rest k)) in
    subst (λ o. Replaced o y c a rest (d ∷ ds) fs) (sym (inner_far t z y far))
      (into_place (far_off u z y) q z y (u.nodes z).rb_parent v c a rest (d ∷ ds) fs ready
        (λ e. noted e ∙ top) (λ h p' x' rep. same_root h t.nodes p' y x' v rest rep at_y.0.5))
