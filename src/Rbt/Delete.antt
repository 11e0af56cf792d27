-- ===== src/Rbt/Delete.antt =====
-- A turn of the loop of `xdb_rb_delete_fixup`: the parts that move nodes.
use cross_db.Base.{
  ℕ, ◌≡◌, ◌≢◌, refl, sym, ap, ◌∙◌, Bool, true, false, if◌then◌else◌, List, ◌∷◌, arith, subst,
}
use cross_db.Rbt.{Rbt, RbNode, Side, other, child, is_red, redden, blacken, rotate}
use cross_db.Rbt.Tree.{Tree, mk, Rep, Frame, PathUp, open_node, count-mk, at_self}
use cross_db.Rbt.Turn.{turned, at_eq}
use cross_db.Rbt.Remove.{case1, case3, case4}
use cross_db.Rbt.Shape.{
  frame, Holds, step_up, step_down, mk-other, Recolored, redden-Recolored, blacken-Recolored,
  recolor,
}
use cross_db.Rbt.Step.{NullBlack, null_kept}

-- A tree and its path, with NULL black and its parent as it is noted.
abbrev pub Kept : Rbt → ℕ → ℕ → ℕ → Tree → List Frame → Type 0
Kept t q x p u fs = Holds t x p u fs × NullBlack t × ((t.nodes 0).rb_parent ≡ q)

null_parent :
    (h h' : ℕ → RbNode) (x q : ℕ) (c : Bool)
    → x ≢ 0
    → Recolored h h' x c
    → (h 0).rb_parent ≡ q
    → (h' 0).rb_parent ≡ q
null_parent h h' x q c nz re e = ap (λ (n : RbNode). n.rb_parent) (re.0 0 (λ i. nz (sym i))) ∙ e

-- The focus, a child and the other child in another colour.
pub recolor_top :
    (t : Rbt) (h' : ℕ → RbNode) (q x p : ℕ) (s : Side) (c c' : Bool) (a : Tree) (k : ℕ) (b : Tree)
    (fs : List Frame)
    → Recolored t.nodes h' k c'
    → Kept t q x p (mk s c a k b) fs
    → Kept (record t { nodes = h' }) q x p (mk s c' a k b) fs
recolor_top t h' q x p s c c' a k b fs re (holds, null, par) =
    let nz = (open_node t.nodes p x s c a k b holds.0).1 in
    (
      recolor t h' x p s c c' a k b fs re holds,
      null_kept t.nodes h' k c' nz re null,
      null_parent t.nodes h' k q c' nz re par,
    )

pub recolor_near :
    (t : Rbt) (h' : ℕ → RbNode) (q x p : ℕ) (s sn : Side) (c d d' : Bool) (a : Tree) (y : ℕ)
    (e : Tree) (k : ℕ) (b : Tree) (fs : List Frame)
    → Recolored t.nodes h' y d'
    → Kept t q x p (mk s c (mk sn d a y e) k b) fs
    → Kept (record t { nodes = h' }) q k (h' k).rb_parent (mk s c (mk sn d' a y e) k b) fs
recolor_near t h' q x p s sn c d d' a y e k b fs re (holds, null, par) =
    let down = step_down t x p s c (mk sn d a y e) k b fs holds in
    let (one, null', par') =
      recolor_top t h' q (child s (t.nodes k)) k sn d d' a y e (frame s c k b ∷ fs) re
        (down, null, par) in
    (
      step_up (record t { nodes = h' }) (child s (t.nodes k)) k (mk sn d' a y e) (frame s c k b) fs
          one,
      null',
      par',
    )

pub recolor_far :
    (t : Rbt) (h' : ℕ → RbNode) (q x p : ℕ) (s sn : Side) (c d d' : Bool) (b : Tree) (k : ℕ)
    (a : Tree) (y : ℕ) (e : Tree) (fs : List Frame)
    → Recolored t.nodes h' y d'
    → Kept t q x p (mk s c b k (mk sn d a y e)) fs
    → Kept (record t { nodes = h' }) q k (h' k).rb_parent (mk s c b k (mk sn d' a y e)) fs
recolor_far t h' q x p s sn c d d' b k a y e fs re (holds, null, par) =
    let (one, null', par') =
      recolor_near t h' q x p (other s) sn c d d' a y e k b fs re
        (rw (mk-other s c (mk sn d a y e) k b) holds, null, par) in
    (rw (← mk-other s c (mk sn d' a y e) k b) one, null', par')

pub turn_top :
    (s : Side) (t : Rbt) (q p x w y : ℕ) (c d : Bool) (a b e : Tree) (fs : List Frame)
    → Kept t q w p (mk s c a x (mk s d b y e)) fs
    → Kept (rotate s t x) q y p (mk s d (mk s c a x b) y e) fs
turn_top s t q p x w y c d a b e fs ((rep, up, once), null, par) =
    let w_eq : w ≡ x = (open_node t.nodes p w s c a x (mk s d b y e) rep).0 in
    let (r, u, o, z) =
      turned s t p x y c d a b e fs
        (subst (λ v. Rep t.nodes p v (mk s c a x (mk s d b y e))) w_eq rep)
        (subst (λ v. PathUp t.nodes t.rb_root v p fs) w_eq up) once in
    (
      (r, u, o),
      ap (λ (n : RbNode). is_red (λ _. n) 0) z ∙ null,
      ap (λ (n : RbNode). n.rb_parent) z ∙ par,
    )

-- The parent of the focus as the nodes note it.
abbrev pub KeptAt : Rbt → ℕ → ℕ → Tree → List Frame → Type 0
KeptAt t q x u fs = (w : ℕ) × (p : ℕ) × Kept t q w p u fs

module _ (s : Side) (t : Rbt) (q xp w : ℕ) (gs : List Frame) where
  pub case1_lem :
      (u c d : Tree)
      → KeptAt t q xp (mk s false u xp (mk s true c w d)) gs
      → KeptAt (case1 s t xp w) q w (mk s false (mk s true u xp c) w d) gs
  unfolding case1
  case1_lem u c d (x, p, kept) =
      let h1 = blacken t.nodes w in
      let t1 : Rbt = record t { nodes = h1 } in
      let one =
        recolor_far t h1 q x p s s false true false u xp c w d gs (blacken-Recolored t.nodes w)
          kept in
      let two =
        recolor_top t1 (redden h1 xp) q xp (h1 xp).rb_parent s false true u xp (mk s false c w d) gs
          (redden-Recolored h1 xp) one in
      (
        w,
        (h1 xp).rb_parent,
        turn_top s (record t { nodes = redden h1 xp }) q (h1 xp).rb_parent xp xp w true false u c d
            gs two,
      )

  -- Case 2: the node beside `x` becomes red.
  pub case2_lem :
      (f : Bool) (u c d : Tree)
      → KeptAt t q xp (mk s f u xp (mk s false c w d)) gs
      → KeptAt (record t { nodes = redden t.nodes w }) q xp (mk s f u xp (mk s true c w d)) gs
  case2_lem f u c d (x, p, kept) = (
    xp,
    (redden t.nodes w xp).rb_parent,
    recolor_far t (redden t.nodes w) q x p s s f false true u xp c w d gs
        (redden-Recolored t.nodes w) kept,
  )

  -- A change of the tree beside `x`.
  beside_x :
      (t' : Rbt) (f : Bool) (u b b' : Tree)
      → ((y p : ℕ) (fs : List Frame) → Kept t q y p b fs → KeptAt t' q y b' fs)
      → KeptAt t q xp (mk s f u xp b) gs
      → KeptAt t' q xp (mk s f u xp b') gs
  beside_x t' f u b b' change (x, p, (holds, null, par)) =
      let seen : Holds t x p (mk (other s) f b xp u) gs = rw (mk-other s f b xp u) holds in
      let (y, p', (held, null', par')) =
        change (child (other s) (t.nodes xp)) xp (frame (other s) f xp u ∷ gs)
          (step_down t x p (other s) f b xp u gs seen, null, par) in
      let up = step_up t' y p' b' (frame (other s) f xp u) gs held in
      (xp, (t'.nodes xp).rb_parent, (rw (← mk-other s f b' xp u) up, null', par'))

-- Case 3.
pub case3_lem :
    (s : Side) (t : Rbt) (q xp w k : ℕ) (gs : List Frame) (f : Bool) (u c1 c2 d : Tree)
    → KeptAt t q xp (mk s f u xp (mk s false (mk s true c1 k c2) w d)) gs
    → KeptAt (case3 s t k w) q xp (mk s f u xp (mk s false c1 k (mk s true c2 w d))) gs
unfolding case3
case3_lem s t q xp w k gs f u c1 c2 d =
    beside_x s t q xp w gs (case3 s t k w) f u (mk s false (mk s true c1 k c2) w d)
      (mk s false c1 k (mk s true c2 w d))
      λ y p fs kept.
        let h1 = blacken t.nodes k in
        let t1 : Rbt = record t { nodes = h1 } in
        let t2 : Rbt = record t { nodes = redden h1 w } in
        let one =
          recolor_near t h1 q y p s s false true false c1 k c2 w d fs (blacken-Recolored t.nodes k)
            kept in
        let (held, null, par) =
          recolor_top t1 (redden h1 w) q w (h1 w).rb_parent s false true (mk s false c1 k c2) w d fs
            (redden-Recolored h1 w) one in
        let seen : Holds t2 w (h1 w).rb_parent (mk (other s) true d w (mk (other s) false c2 k c1))
            fs =
          rw (mk-other s true d w, mk-other s false c2 k c1) held in
        let (held3, null3, par3) =
          turn_top (other s) t2 q (h1 w).rb_parent w w k true false d c2 c1 fs (seen, null, par) in
        (
          k,
          (h1 w).rb_parent,
          (
            rw (← mk-other s false (mk s true c2 w d) k c1, ← mk-other s true d w c2) held3,
            null3,
            par3,
          ),
        )

-- The colour `f` for the node `w`.
abbrev pub color_as : Bool → (ℕ → RbNode) → ℕ → ℕ → RbNode
color_as f h w = if f then redden (blacken h w) w else blacken h w

color_as-Recolored : (f : Bool) (h : ℕ → RbNode) (w : ℕ) → Recolored h (color_as f h w) w f
color_as-Recolored true h w =
    (λ k n. ground arith, ground arith, ground arith, ground arith, ground arith)
color_as-Recolored false h w = blacken-Recolored h w

-- Case 4 when the parent has the colour `f`.
colored4 : Side → Rbt → ℕ → ℕ → ℕ → Bool → Rbt
colored4 s t xp w k f =
    rotate s (record t { nodes = blacken (blacken (color_as f t.nodes w) xp) k }) xp

case4_eq :
    (s : Side) (t : Rbt) (xp w k : ℕ) (f : Bool)
    → is_red (blacken t.nodes w) xp ≡ f
    → case4 s t xp w k ≡ colored4 s t xp w k f
unfolding case4 colored4
case4_eq s t xp w k f e = rw e refl

colored4_lem :
    (s : Side) (t : Rbt) (q xp w k : ℕ) (gs : List Frame) (f : Bool) (u c d1 d2 : Tree)
    → KeptAt t q xp (mk s f u xp (mk s false c w (mk s true d1 k d2))) gs
    → KeptAt (colored4 s t xp w k f) q w (mk s f (mk s false u xp c) w (mk s false d1 k d2)) gs
unfolding colored4
colored4_lem s t q xp w k gs f u c d1 d2 (x, p, kept) =
    let d = mk s true d1 k d2 in
    let h1 = color_as f t.nodes w in
    let h2 = blacken h1 xp in
    let h3 = blacken h2 k in
    let t1 : Rbt = record t { nodes = h1 } in
    let t2 : Rbt = record t { nodes = h2 } in
    let t3 : Rbt = record t { nodes = h3 } in
    let one =
      recolor_far t h1 q x p s s f false f u xp c w d gs (color_as-Recolored f t.nodes w) kept in
    let two =
      recolor_top t1 h2 q xp (h1 xp).rb_parent s f false u xp (mk s f c w d) gs
        (blacken-Recolored h1 xp) one in
    let (y, p', three) =
      beside_x s t2 q xp w gs t3 false u (mk s f c w d) (mk s f c w (mk s false d1 k d2))
        (λ y p fs at_w. (
          w,
          (h3 w).rb_parent,
          recolor_far t2 h3 q y p s s f true false c w d1 k d2 fs (blacken-Recolored h2 k) at_w,
        ))
        (xp, (h1 xp).rb_parent, two) in
    (w, p', turn_top s t3 q p' xp y w false f u c (mk s false d1 k d2) gs three)

pub case4_lem :
    (s : Side) (t : Rbt) (q xp w k : ℕ) (gs : List Frame) (f : Bool) (u c d1 d2 : Tree)
    → KeptAt t q xp (mk s f u xp (mk s false c w (mk s true d1 k d2))) gs
    → KeptAt (case4 s t xp w k) q w (mk s f (mk s false u xp c) w (mk s false d1 k d2)) gs
case4_lem s t q xp w k gs f u c d1 d2 (x, p, kept) =
    let d = mk s true d1 k d2 in
    let (x_eq, nz, par, col, near, far) =
      open_node t.nodes p x s f u xp (mk s false c w d) kept.0.0 in
    let apart : xp ≢ w = λ i. omega (
      arith,
      kept.0.2 xp,
      count-mk s xp f u xp (mk s false c w d),
      count-mk s xp false c w d,
      at_self xp,
      at_eq xp w i,
    ) in
    let same : is_red (blacken t.nodes w) xp ≡ f =
      ap (λ (n : RbNode). is_red (λ _. n) 0) ((blacken-Recolored t.nodes w).0 xp apart) ∙ col in
    subst (λ v. KeptAt v q w (mk s f (mk s false u xp c) w (mk s false d1 k d2)) gs)
      (sym (case4_eq s t xp w k f same)) (colored4_lem s t q xp w k gs f u c d1 d2 (x, p, kept))
