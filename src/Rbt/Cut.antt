-- ===== src/Rbt/Cut.antt =====
-- `xdb_rb_transplant`: a node with one child gives its place to the child.
use cross_db.Base.{
  ℕ, suc, ◌+◌, ◌≤◌, ◌<◌, ◌≡◌, ◌≢◌, refl, sym, ap, ◌∙◌, Bool, true, false, ◌==◌, if◌then◌else◌,
  Option, some, List, [], ◌∷◌, arith, subst, length, ne→==, if_both,
}
use cross_db.Rbt.{Rbt, RbNode, Side, other, child, has_msb, replace_child}
use cross_db.Rbt.Remove.{transplant, delete_fixup}
use cross_db.Rbt.Sound.{red_top, Sound, SoundPath}
use cross_db.Rbt.Ended.{IsTree, whole, plug-Sound}
use cross_db.Rbt.Lower.{Short, Noted, cost}
use cross_db.Rbt.Deleted.{delete_fixup-IsTree}
use cross_db.Rbt.Tree.{
  Tree, tip, bin, rows, mk, Rep, Frame, plug, PathUp, above, count, at, open_node, Rep-counted,
  Rep-moved, at_self, count-mk,
}
use cross_db.Rbt.Turn.{swapped, PathUp-swapped}
use cross_db.Rbt.Shape.{Holds}
use cross_db.Rbt.Step.{NullBlack}
use cross_db.Rbt.Hang.{in_path}
use cross_db.Rbt.Delete.{Kept}

-- What `transplant` writes, where `p` is the parent of `z`.
module _ (t : Rbt) (z v p : ℕ) (p_eq : (t.nodes z).rb_parent ≡ p) (pv : p ≢ 0 → p ≢ v) where
  cut_off : (k : ℕ) → k ≢ v → (p ≢ 0 → k ≢ p) → (transplant t z v).nodes k ≡ t.nodes k
  unfolding transplant replace_child
  cut_off k n m = ground arith

  cut_child : (transplant t z v).nodes v ≡ record (t.nodes v) { rb_parent = p }
  unfolding transplant replace_child
  cut_child = ground arith

  cut_parent : p ≢ 0 → (transplant t z v).nodes p ≡ swapped (t.nodes p) z v
  unfolding transplant replace_child
  cut_parent n = ground arith

  cut_color : (k : ℕ) → ((transplant t z v).nodes k).color_sibling ≡ (t.nodes k).color_sibling
  unfolding transplant replace_child
  cut_color k = ground arith

  cut_root : (transplant t z v).rb_root ≡ (if p == 0 then v else t.rb_root)
  unfolding transplant replace_child
  cut_root = ground arith

-- NULL is no row.
pub at_zero : (k : ℕ) → k ≢ 0 → at 0 k ≡ 0
at_zero k n = rw (ne→== 0 k (λ e. n (sym e))) refl

pub zero_absent : (h : ℕ → RbNode) (p x : ℕ) (u : Tree) → Rep h p x u → count 0 u ≡ 0
zero_absent h p x tip rep = refl
zero_absent h p x (bin c l k r) rep = omega (
  arith,
  zero_absent h k (h k).rb_left l rep.4,
  zero_absent h k (h k).rb_right r rep.5,
  at_zero k rep.1,
)

pub zero_above :
    (h : ℕ → RbNode) (root x p : ℕ) (fs : List Frame) → PathUp h root x p fs → above 0 fs ≡ 0
zero_above h root x p [] up = refl
zero_above h root x p (f ∷ fs) up = omega (
  arith,
  at_zero f.key up.1,
  zero_absent h f.key (child (other f.side) (h f.key)) f.sib up.4,
  zero_above h root f.key (h f.key).rb_parent fs up.5,
)

-- The child `v`, which may be NULL, comes in the place of `z`.
pub transplant_lem :
    (s : Side) (t : Rbt) (x p z : ℕ) (c : Bool) (b : Tree) (fs : List Frame)
    → Holds t x p (mk s c tip z b) fs
    → NullBlack t
    → let v = child (other s) (t.nodes z) in
      let t' = transplant t z v in (q : ℕ) × Kept t' q v p b fs × (v ≡ 0 → q ≡ p)
transplant_lem s t x p z c b fs (rep, up, once) null =
    let (x_eq, nz, z_up, col, near, far) = open_node t.nodes p x s c tip z b rep in
    let v = child (other s) (t.nodes z) in
    let t' = transplant t z v in
    let counted : (k : ℕ) → at k z + count k b + above k fs ≤ 1 =
      λ k. omega (arith, once k, count-mk s k c tip z b) in
    let v_in : v ≢ 0 → 1 ≤ count v b = Rep-counted t.nodes z v b far in
    let p_in : p ≢ 0 → 1 ≤ above p fs = in_path t.nodes t.rb_root x p fs up in
    let pv : p ≢ 0 → p ≢ v = λ n i.
      omega
        (arith, counted p, p_in n, subst (λ k. 1 ≤ count k b) (sym i) (v_in (λ e. n (i ∙ e)))) in
    let keeps : (k : ℕ)
        → 1 ≤ count k b + above k fs
        → k ≢ v
        → (1 ≤ above k fs → k ≢ p)
        → t'.nodes k ≡ t.nodes k =
      λ k n m l.
        cut_off t z v p z_up pv k m (λ e i. l (subst (λ j. 1 ≤ above j fs) (sym i) (p_in e)) i) in
    let zero_parent : v ≡ 0 → (t'.nodes 0).rb_parent ≡ p = λ e.
      ap (λ (k : ℕ). (t'.nodes k).rb_parent) (sym e)
      ∙ ap (λ (n : RbNode). n.rb_parent) (cut_child t z v p z_up pv) in
    (
      (t'.nodes 0).rb_parent,
      (
        (
          Rep-moved t.nodes t'.nodes z p v b (λ k. omega (arith, counted k))
              (λ k n m. keeps k (omega (arith, n)) m (λ l i. omega (arith, counted k, n, l)))
              (λ n. cut_child t z v p z_up pv) far,
          PathUp-swapped t.nodes t'.nodes t.rb_root t'.rb_root z v p fs
              (λ k. omega (arith, counted k)) nz (omega (arith, counted z, at_self z))
              (λ k n m.
                keeps k (omega (arith, n))
                  (λ i. omega (
                    arith,
                    counted k,
                    n,
                    subst (λ j. 1 ≤ count j b) (sym i)
                        (v_in (λ e. omega (
                          arith,
                          zero_above t.nodes t.rb_root x p fs up,
                          subst (λ j. 1 ≤ above j fs) (i ∙ e) n,
                        ))),
                  ))
                  (λ l. m))
              (cut_parent t z v p z_up pv) (cut_root t z v p z_up pv)
              (subst (λ k. PathUp t.nodes t.rb_root k p fs) x_eq up),
          λ k. omega (arith, counted k),
        ),
        ap has_msb (cut_color t z v p z_up pv 0) ∙ null,
        refl,
      ),
      zero_parent,
    )

-- The repair behind the removal of a node with the colour `red`.
abbrev pub repaired : ℕ → Bool → Rbt → ℕ → Option Rbt
repaired turns red t x = if red then some t else delete_fixup turns t x

Short-Sound : (u : Tree) (n : ℕ) → Sound u n → Short u n
Short-Sound tip n s = s
Short-Sound (bin true l k r) n s = (s.2, s.3)
Short-Sound (bin false l k r) n s = s

cost-le : (u : Tree) (fs : List Frame) → cost u fs ≤ length fs
cost-le u fs = if_both (λ m. m ≤ length fs) (red_top u) 0 (length fs) (omega arith) (omega arith)

-- The path over the place of a node of the colour `c`, where a tree with `n` black nodes on each way down
-- comes.
abbrev pub PathOver : Bool → Tree → ℕ → List Frame → Type 0
PathOver true b n fs = (red_top b ≡ false) × SoundPath fs n
PathOver false b n fs = SoundPath fs (suc n)

Noted-path : (fs : List Frame) (x q p : ℕ) → (x ≡ 0 → q ≡ p) → Noted fs x q p
Noted-path [] x q p h = tt
Noted-path (f ∷ fs) x q p h = h

-- With a place where a node of the colour `c` is gone, the tree is repaired.
pub repaired-IsTree :
    (turns : ℕ) (t : Rbt) (q x p : ℕ) (c : Bool) (b : Tree) (n : ℕ) (fs : List Frame)
    → Kept t q x p b fs
    → (x ≡ 0 → q ≡ p)
    → Sound b n
    → PathOver c b n fs
    → length fs < turns
    → (t' : Rbt) × (repaired turns c t x ≡ some t') × IsTree t' (rows (plug fs b))
repaired-IsTree turns t q x p true b n fs (holds, null, par) noted sb (rb, path) enough =
    let (m, sound, black) = plug-Sound fs b n path sb (λ e. absurd (cc (e, rb))) in
    let (rep, up, once) = whole t x p b fs holds in
    (
      t,
      refl,
      record {
        tree = plug fs b;
        height = m;
        held = rep;
        once = λ j. omega (arith, once j);
        in_order = refl;
        black = black;
        sound = sound;
        null_black = null;
      },
    )
repaired-IsTree turns t q x p false b n fs kept noted sb path enough =
    delete_fixup-IsTree turns t q x p b n fs
      (kept, Noted-path fs x q p noted, Short-Sound b n sb, path)
      (omega (arith, cost-le b fs, enough))
