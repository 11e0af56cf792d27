-- ===== src/Rbt/Fixup.antt =====
-- A turn of the loop of `xdb_rb_insert_fixup`: the three cases.
use cross_db.Base.{
  ℕ, suc, ◌<◌, ◌≡◌, refl, sym, ap, ◌∙◌, true, false, List, ◌∷◌, arith, subst, length,
}
use cross_db.Rbt.{Rbt, RbNode, Side, left, right, other, child, rotate, outer_turn, recolor_turn}
use cross_db.Rbt.Tree.{Tree, tip, bin, rows, mk, Rep, Frame, plug, open_node}
use cross_db.Rbt.Shape.{frame, Holds, step_up, mk-other, rows-turn, rows-mk, rows-plug}
use cross_db.Rbt.Sound.{red_top, Sound, SoundPath, Sound-red, Sound-black, red_top-mk}
use cross_db.Rbt.Step.{NullBlack, turned-Holds, outer_lem, recolor_lem}

-- The loop stands at `z`, whose red tree is sound, with a path that is sound but for a red parent of `z`.
abbrev pub Ready : Rbt → ℕ → ℕ → Tree → ℕ → List Frame → Type 0
Ready t z p u n fs =
    Holds t z p u fs × (red_top u ≡ true) × Sound u n × SoundPath fs n × NullBlack t

-- The loop stands at `z` with the same rows in order, and a path shorter than `m`.
abbrev pub Moved : Rbt → ℕ → List ℕ → ℕ → Type 0
Moved t z xs m =
    (p : ℕ) × (u : Tree) × (n : ℕ) × (fs : List Frame) × Ready t z p u n fs
    × (rows (plug fs u) ≡ xs)
    × (length fs < m)

-- A red tree from a side.
pub from_side :
    (s : Side) (u : Tree) (n : ℕ)
    → red_top u ≡ true
    → Sound u n
    → (b : Tree) × (k : ℕ) × (e : Tree) × (u ≡ mk s true b k e)
      × (red_top b ≡ false)
      × (red_top e ≡ false)
      × Sound b n
      × Sound e n
from_side s tip n r h = cc
from_side s (bin false l k e) n r h = cc
from_side left (bin true l k e) n r h = (l, k, e, refl, h.0, h.1, h.2, h.3)
from_side right (bin true l k e) n r h = (e, k, l, refl, h.1, h.0, h.3, h.2)

pub same_root :
    (h h' : ℕ → RbNode) (p p' x x' : ℕ) (u : Tree) → Rep h p x u → Rep h' p' x' u → x ≡ x'
same_root h h' p p' x x' tip r r' = r ∙ sym r'
same_root h h' p p' x x' (bin c l k e) r r' = r.0 ∙ sym r'.0

-- Case 3, with the rows as they are told.
outer-Moved :
    (s : Side) (t : Rbt) (q zpp zp z w : ℕ) (a b y : Tree) (gs : List Frame) (n : ℕ) (xs : List ℕ)
    → Holds t zpp q (mk s false (mk s true a zp b) zpp y) gs
    → NullBlack t
    → Rep t.nodes w z a
    → red_top a ≡ true
    → Sound a n
    → red_top b ≡ false
    → Sound b n
    → red_top y ≡ false
    → Sound y n
    → SoundPath gs (suc n)
    → rows (plug gs (mk s false (mk s true a zp b) zpp y)) ≡ xs
    → Moved (outer_turn s t zp zpp) z xs (suc (suc (length gs)))
outer-Moved s t q zpp zp z w a b y gs n xs holds null at_z ra sa rb sb ry sy path order =
    let t' = outer_turn s t zp zpp in
    let (held, null') = outer_lem s t q zpp zp a b y gs holds null in
    let fs = frame s false zp (mk s true b zpp y) ∷ gs in
    let z_eq = same_root t'.nodes t.nodes zp w (child s (t'.nodes zp)) z a held.0 at_z in
    let turned_rows : rows (mk s false a zp (mk s true b zpp y))
        ≡ rows (mk s false (mk s true a zp b) zpp y) =
      rows-turn s false true true false a b y zp zpp in
    (
      zp,
      a,
      n,
      fs,
      (
        subst (λ v. Holds t' v zp a fs) z_eq held,
        ra,
        sa,
        (Sound-red s b y zpp n rb ry sb sy, path),
        null',
      ),
      rows-plug gs (mk s false a zp (mk s true b zpp y)) (mk s false (mk s true a zp b) zpp y)
            turned_rows
          ∙ order,
      omega arith,
    )

module _ (t : Rbt) (z p n kf kg : ℕ) (u bf bg : Tree) (gs : List Frame) (s : Side) where
  -- Case 1.
  pub red-Moved :
      (sf : Side) (l r : Tree) (ky : ℕ)
      → Ready t z p u n (frame sf true kf bf ∷ frame s false kg (bin true l ky r) ∷ gs)
      → Moved
          (recolor_turn t kf ky kg)
          kg
          (rows (plug gs (mk s false (mk sf true u kf bf) kg (bin true l ky r))))
          (suc (suc (length gs)))
  red-Moved sf l r ky (holds, ru, su, path, null) =
      let y = bin true l ky r in
      let one = step_up t z p u (frame sf true kf bf) (frame s false kg y ∷ gs) holds in
      let two =
        step_up t kf (t.nodes kf).rb_parent (mk sf true u kf bf) (frame s false kg y) gs one in
      let (held, null') = recolor_lem s t (t.nodes kg).rb_parent kg kf ky u l r gs sf bf two null in
      let t' = recolor_turn t kf ky kg in
      let fresh = mk s true (mk sf false u kf bf) kg (bin false l ky r) in
      let y_sound : Sound y n = path.3.0 in
      (
        (t'.nodes kg).rb_parent,
        fresh,
        suc n,
        gs,
        (
          held,
          red_top-mk s true (mk sf false u kf bf) kg (bin false l ky r),
          Sound-red s (mk sf false u kf bf) (bin false l ky r) kg (suc n)
              (red_top-mk sf false u kf bf) refl (Sound-black sf u bf kf n su path.1)
              (y_sound.2, y_sound.3),
          path.3.1,
          null',
        ),
        rows-plug gs fresh (mk s false (mk sf true u kf bf) kg y) (
            rows-mk s true false (mk sf false u kf bf) (mk sf true u kf bf) kg (bin false l ky r) y
              (rows-mk sf false true u u kf bf bf refl refl) refl),
        omega arith,
      )

  -- Case 3.
  pub same_side-Moved :
      Ready t z p u n (frame s true kf bf ∷ frame s false kg bg ∷ gs)
      → red_top bg ≡ false
      → Moved
          (outer_turn s t kf kg)
          z
          (rows (plug gs (mk s false (mk s true u kf bf) kg bg)))
          (suc (suc (length gs)))
  same_side-Moved (holds, ru, su, path, null) rg =
      let one = step_up t z p u (frame s true kf bf) (frame s false kg bg ∷ gs) holds in
      let two =
        step_up t kf (t.nodes kf).rb_parent (mk s true u kf bf) (frame s false kg bg) gs one in
      outer-Moved s t (t.nodes kg).rb_parent kg kf z p u bf bg gs n
        (rows (plug gs (mk s false (mk s true u kf bf) kg bg))) two null holds.0 ru su path.0 path.1
        rg path.3.0 path.3.1 refl

  -- Case 2 from the parent on: it is turned under `k` first.
  inner-Moved :
      (k : ℕ) (b e : Tree)
      → Holds t kf p (mk s true bf kf (mk s true b k e)) (frame s false kg bg ∷ gs)
      → NullBlack t
      → red_top bf ≡ false
      → Sound bf n
      → red_top b ≡ false
      → Sound b n
      → red_top e ≡ false
      → Sound e n
      → red_top bg ≡ false
      → Sound bg n
      → SoundPath gs (suc n)
      → let t1 = rotate s t kf in
        Moved
          (outer_turn s t1 k kg)
          kf
          (rows (plug gs (mk s false (mk s true bf kf (mk s true b k e)) kg bg)))
          (suc (suc (length gs)))
        × ((t1.nodes kf).rb_parent ≡ k)
        × ((t1.nodes k).rb_parent ≡ kg)
  inner-Moved k b e holds null rf sf rb sb re se rg sg path =
      let t1 = rotate s t kf in
      let a = mk s true bf kf b in
      let (held, null1) =
        turned-Holds s t p kf k true true bf b e (frame s false kg bg ∷ gs) holds null in
      let two = step_up t1 k p (mk s true a k e) (frame s false kg bg) gs held in
      let (k_eq, k_nz, k_up, k_red, a_rep, e_rep) = open_node t1.nodes p k s true a k e held.0 in
      let (f_eq, f_nz, f_up, f_red, x_rep, b_rep) =
        open_node t1.nodes k (child s (t1.nodes k)) s true bf kf b a_rep in
      let before = mk s true bf kf (mk s true b k e) in
      (
        outer-Moved s t1 (t1.nodes kg).rb_parent kg k kf k a e bg gs n
            (rows (plug gs (mk s false before kg bg))) two null1
            (subst (λ v. Rep t1.nodes k v a) f_eq a_rep) (red_top-mk s true bf kf b)
            (Sound-red s bf b kf n rf rb sf sb) re se rg sg path
            (rows-plug gs (mk s false (mk s true a k e) kg bg) (mk s false before kg bg) (
              rows-mk s false false (mk s true a k e) before kg bg bg
                (sym (rows-turn s true true true true bf b e kf k)) refl)),
        f_up,
        k_up ∙ held.1.0,
      )

-- Case 2.
pub other_side-Moved :
    (t : Rbt) (z p n kf kg : ℕ) (u bf bg : Tree) (gs : List Frame) (s : Side)
    → Ready t z p u n (frame (other s) true kf bf ∷ frame s false kg bg ∷ gs)
    → red_top bg ≡ false
    → let t1 = rotate s t kf in
      Moved
        (outer_turn s t1 z kg)
        kf
        (rows (plug gs (mk s false (mk (other s) true u kf bf) kg bg)))
        (suc (suc (length gs)))
      × ((t1.nodes kf).rb_parent ≡ z)
      × ((t1.nodes z).rb_parent ≡ kg)
other_side-Moved t z p n kf kg u bf bg gs s (holds, ru, su, path, null) rg =
    let (b, k, e, u_eq, rb, re, sb, se) = from_side s u n ru su in
    let q = (t.nodes kf).rb_parent in
    let up = frame s false kg bg ∷ gs in
    let one : Holds t kf q (mk s true bf kf u) up =
      rw (← mk-other s true u kf bf) (step_up t z p u (frame (other s) true kf bf) up holds) in
    let one' : Holds t kf q (mk s true bf kf (mk s true b k e)) up =
      subst (λ v. Holds t kf q (mk s true bf kf v) up) u_eq one in
    let k_eq : k ≡ z =
      sym ((open_node t.nodes p z s true b k e (subst (λ v. Rep t.nodes p z v) u_eq holds.0)).0) in
    let (moved, f_up, k_up) =
      inner-Moved t z q n kf kg u bf bg gs s k b e one' null path.0 path.1 rb sb re se rg path.3.0
        path.3.1 in
    let t1 = rotate s t kf in
    let same : mk s true bf kf (mk s true b k e) ≡ mk (other s) true u kf bf =
      ap (λ v. mk s true bf kf v) (sym u_eq) ∙ sym (mk-other s true u kf bf) in
    (
      subst
          (λ v.
            Moved (outer_turn s t1 z kg) kf (rows (plug gs (mk s false v kg bg)))
              (suc (suc (length gs))))
          same
          (subst
            (λ v.
              Moved (outer_turn s t1 v kg) kf
                (rows (plug gs (mk s false (mk s true bf kf (mk s true b k e)) kg bg)))
                (suc (suc (length gs))))
            k_eq moved),
      f_up ∙ k_eq,
      ap (λ v. (t1.nodes v).rb_parent) (sym k_eq) ∙ k_up,
    )
