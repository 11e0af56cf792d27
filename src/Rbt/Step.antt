-- ===== src/Rbt/Step.antt =====
-- A turn of the loop of `xdb_rb_insert_fixup` moves the red node whose parent may be red up the tree.
use cross_db.Base.{ℕ, ◌≡◌, ◌≢◌, sym, ap, ◌∙◌, Bool, true, false, List, ◌∷◌, subst}
use cross_db.Rbt.{
  Rbt, RbNode, Side, left, other, child, is_red, redden, blacken, rotate, outer_turn, recolor_turn,
}
use cross_db.Rbt.Tree.{Tree, tip, bin, mk, Rep, Frame, open_node}
use cross_db.Rbt.Turn.{turned}
use cross_db.Rbt.Shape.{
  frame, Holds, step_up, step_down, mk-other, Recolored, redden-Recolored, blacken-Recolored,
  recolor,
}
use cross_db.Rbt.Sound.{red_top}

-- NULL counts as black.
abbrev pub NullBlack : Rbt → Type 0
NullBlack t = is_red t.nodes 0 ≡ false

pub is_red-top :
    (h : ℕ → RbNode) (p x : ℕ) (u : Tree)
    → is_red h 0 ≡ false
    → Rep h p x u
    → is_red h x ≡ red_top u
is_red-top h p x tip null rep = rw rep null
is_red-top h p x (bin c l k r) null rep = rw rep.0 rep.3

pub null_kept :
    (h h' : ℕ → RbNode) (x : ℕ) (c : Bool)
    → x ≢ 0
    → Recolored h h' x c
    → is_red h 0 ≡ false
    → is_red h' 0 ≡ false
null_kept h h' x c nz re null =
    ap (λ (n : RbNode). is_red (λ _. n) 0) (re.0 0 (λ e. nz (sym e))) ∙ null

-- The focus turned, from a side.
pub turned-Holds :
    (s : Side) (t : Rbt) (p x y : ℕ) (c d : Bool) (a b e : Tree) (fs : List Frame)
    → Holds t x p (mk s c a x (mk s d b y e)) fs
    → NullBlack t
    → Holds (rotate s t x) y p (mk s d (mk s c a x b) y e) fs × NullBlack (rotate s t x)
turned-Holds s t p x y c d a b e fs (rep, up, once) null =
    let (r, u, o, z) = turned s t p x y c d a b e fs rep up once in
    ((r, u, o), ap (λ (n : RbNode). is_red (λ _. n) 0) z ∙ null)

-- Case 3.
pub outer_lem :
    (s : Side) (t : Rbt) (q zpp zp : ℕ) (a b y : Tree) (gs : List Frame)
    → Holds t zpp q (mk s false (mk s true a zp b) zpp y) gs
    → NullBlack t
    → let t' = outer_turn s t zp zpp in
      Holds t' (child s (t'.nodes zp)) zp a (frame s false zp (mk s true b zpp y) ∷ gs)
      × NullBlack t'
unfolding outer_turn
outer_lem s t q zpp zp a b y gs holds null =
    let (x_eq, zpp_nz, q_eq, col, near, far) =
      open_node t.nodes q zpp s false (mk s true a zp b) zpp y holds.0 in
    let zp_nz = (open_node t.nodes zpp (child s (t.nodes zpp)) s true a zp b near).1 in
    let h1 = blacken t.nodes zp in
    let t1 : Rbt = record t { nodes = h1 } in
    let down = step_down t zpp q s false (mk s true a zp b) zpp y gs holds in
    let black =
      recolor t h1 (child s (t.nodes zpp)) zpp s true false a zp b (frame s false zpp y ∷ gs)
        (blacken-Recolored t.nodes zp) down in
    let back =
      step_up t1 (child s (t.nodes zpp)) zpp (mk s false a zp b) (frame s false zpp y) gs black in
    let t2 : Rbt = record t { nodes = redden h1 zpp } in
    let red =
      recolor t1 (redden h1 zpp) zpp (h1 zpp).rb_parent s false true (mk s false a zp b) zpp y gs
        (redden-Recolored h1 zpp) back in
    let null2 : NullBlack t2 =
      null_kept h1 (redden h1 zpp) zpp true zpp_nz (redden-Recolored h1 zpp)
        (null_kept t.nodes h1 zp false zp_nz (blacken-Recolored t.nodes zp) null) in
    let seen : Holds t2 zpp (h1 zpp).rb_parent (mk (other s) true y zpp (mk (other s) false b zp a))
        gs =
      rw (mk-other s true y zpp, mk-other s false b zp a) red in
    let (done, null3) =
      turned-Holds (other s) t2 (h1 zpp).rb_parent zpp zp true false y b a gs seen null2 in
    let t3 = rotate (other s) t2 zpp in
    let shown : Holds t3 zp (h1 zpp).rb_parent (mk s false a zp (mk s true b zpp y)) gs =
      rw (← mk-other s false (mk s true b zpp y) zp a, ← mk-other s true y zpp b) done in
    (step_down t3 zp (h1 zpp).rb_parent s false a zp (mk s true b zpp y) gs shown, null3)

-- Case 1: the node on the other side is red.
pub recolor_lem :
    (s : Side) (t : Rbt) (q zpp zp ky : ℕ) (u l r : Tree) (gs : List Frame) (sf : Side) (b : Tree)
    → Holds t zpp q (mk s false (mk sf true u zp b) zpp (bin true l ky r)) gs
    → NullBlack t
    → let t' = recolor_turn t zp ky zpp in
      Holds t' zpp
        (t'.nodes zpp).rb_parent
        (mk s true (mk sf false u zp b) zpp (bin false l ky r))
        gs
      × NullBlack t'
unfolding recolor_turn
recolor_lem s t q zpp zp ky u l r gs sf b holds null =
    let (x_eq, zpp_nz, q_eq, col, near, far) =
      open_node t.nodes q zpp s false (mk sf true u zp b) zpp (bin true l ky r) holds.0 in
    let zp_nz = (open_node t.nodes zpp (child s (t.nodes zpp)) sf true u zp b near).1 in
    let ky_nz = far.1 in
    let h1 = blacken t.nodes zp in
    let h2 = blacken h1 ky in
    let h3 = redden h2 zpp in
    let t1 : Rbt = record t { nodes = h1 } in
    let t2 : Rbt = record t { nodes = h2 } in
    let back =
      step_up t1 (child s (t.nodes zpp)) zpp (mk sf false u zp b)
        (frame s false zpp (bin true l ky r)) gs
        (recolor t h1 (child s (t.nodes zpp)) zpp sf true false u zp b
          (frame s false zpp (bin true l ky r) ∷ gs) (blacken-Recolored t.nodes zp)
          (step_down t zpp q s false (mk sf true u zp b) zpp (bin true l ky r) gs holds)) in
    let q1 = (h1 zpp).rb_parent in
    let turned_over : Holds t1 zpp q1
        (mk (other s) false (bin true l ky r) zpp (mk sf false u zp b)) gs =
      rw (mk-other s false (bin true l ky r)) back in
    let y1 = child (other s) (h1 zpp) in
    let again =
      step_up t2 y1 zpp (bin false l ky r) (frame (other s) false zpp (mk sf false u zp b)) gs (
        recolor t1 h2 y1 zpp left true false l ky r
          (frame (other s) false zpp (mk sf false u zp b) ∷ gs) (blacken-Recolored h1 ky)
          (step_down t1 zpp q1 (other s) false (bin true l ky r) zpp (mk sf false u zp b) gs
            turned_over)) in
    let q2 = (h2 zpp).rb_parent in
    let seen : Holds t2 zpp q2 (mk s false (mk sf false u zp b) zpp (bin false l ky r)) gs =
      rw (← mk-other s false (bin false l ky r)) again in
    let red =
      recolor t2 h3 zpp q2 s false true (mk sf false u zp b) zpp (bin false l ky r) gs
        (redden-Recolored h2 zpp) seen in
    (
      subst
          (λ z.
            Holds (record t { nodes = h3 }) zpp z
              (mk s true (mk sf false u zp b) zpp (bin false l ky r)) gs)
          (sym ((redden-Recolored h2 zpp).3)) red,
      null_kept h2 h3 zpp true zpp_nz (redden-Recolored h2 zpp) (
          null_kept h1 h2 ky false ky_nz (blacken-Recolored h1 ky)
            (null_kept t.nodes h1 zp false zp_nz (blacken-Recolored t.nodes zp) null)),
    )
