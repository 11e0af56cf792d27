-- ===== src/Rbt/Shrunk.antt =====
-- `xdb_rb_delete_fixup` ends, and leaves a sound tree with the rows in their order.
use cross_db.Base.{
  ℕ, suc, ◌≡◌, refl, sym, ap, ◌∙◌, Bool, true, false, if◌then◌else◌, List, ◌∷◌, arith, subst,
  length,
}
use cross_db.Rbt.{Rbt, Side, left, right, other, child, is_red}
use cross_db.Rbt.Remove.{case1, black_beside, delete_turn}
use cross_db.Rbt.Tree.{Tree, tip, bin, rows, mk, Rep, Frame, plug, open_node}
use cross_db.Rbt.Shape.{frame, Holds, step_up, step_down, rows-turn, rows-plug}
use cross_db.Rbt.Sound.{red_top, Sound, SoundPath}
use cross_db.Rbt.Step.{is_red-top}
use cross_db.Rbt.Fixup.{from_side, same_root}
use cross_db.Rbt.Delete.{Kept, case1_lem}
use cross_db.Rbt.Lower.{PathFor, noted_parent}
use cross_db.Rbt.Beside.{LoweredBy, beside-Lowered}

-- A black node from a side.
black_side :
    (s : Side) (b : Tree) (n : ℕ)
    → red_top b ≡ false
    → Sound b (suc n)
    → (c : Tree) × (w : ℕ) × (d : Tree) × (b ≡ mk s false c w d) × Sound c n × Sound d n
black_side s tip n r h = absurd (omega (arith, h))
black_side left (bin false l k e) n r h = (l, k, e, refl, h.0, h.1)
black_side right (bin false l k e) n r h = (e, k, l, refl, h.1, h.0)
black_side s (bin true l k e) n r h = cc

module _ (s : Side) (t : Rbt) (q x p xp n : ℕ) (f : Bool) (u b : Tree) (gs : List Frame)
    (kept : Kept t q x p u (frame s f xp b ∷ gs)) (noted : x ≡ 0 → q ≡ p) (ru : red_top u ≡ false)
    (su : Sound u n) (path : SoundPath (frame s f xp b ∷ gs) (suc n)) where
  pub found_parent : (t.nodes x).rb_parent ≡ xp
  found_parent = noted_parent t q x p u kept.0.0 kept.2 noted ∙ kept.0.1.0

  w_red : is_red t.nodes (child (other s) (t.nodes xp)) ≡ red_top b
  w_red = is_red-top t.nodes xp (child (other s) (t.nodes xp)) b kept.1 kept.0.1.4

  turns_black : red_top b ≡ false → delete_turn s t x ≡ black_beside s t x
  unfolding delete_turn
  turns_black e = rw (found_parent, w_red ∙ e) refl

  turns_red :
      (w : ℕ)
      → child (other s) (t.nodes xp) ≡ w
      → red_top b ≡ true
      → delete_turn s t x ≡ black_beside s (case1 s t xp w) x
  unfolding delete_turn
  turns_red w i e = rw (found_parent, w_red ∙ e, i) refl

  path_for : (g : Bool) (c : Tree) → SoundPath (frame s g xp c ∷ gs) (suc n) → PathFor g n gs
  path_for true c h = (h.2, h.3)
  path_for false c h = h.1

  sib-Sound : (g : Bool) (c : Tree) → SoundPath (frame s g xp c ∷ gs) (suc n) → Sound c (suc n)
  sib-Sound true c h = h.1
  sib-Sound false c h = h.0

  black_turn :
      red_top b ≡ false
      → LoweredBy (delete_turn s t x) (rows (plug gs (mk s f u xp b))) (if f then 0 else length gs)
  black_turn rb =
      let (c, w, d, b_eq, sc, sd) = black_side s b n rb (sib-Sound f b path) in
      subst (λ o. LoweredBy o (rows (plug gs (mk s f u xp b))) (if f then 0 else length gs))
        (sym (turns_black rb))
        (subst
          (λ v.
            LoweredBy (black_beside s t x) (rows (plug gs (mk s f u xp v)))
              (if f then 0 else length gs))
          (sym b_eq)
          (beside-Lowered s t q x p xp w n f u c d gs
            (subst (λ v. Kept t q x p u (frame s f xp v ∷ gs)) b_eq kept) noted ru su sc sd
            (path_for f b path)))

-- The turn behind case 1, below the red `xp`.
black_turn_after :
    (s : Side) (t : Rbt) (q x xp w n : ℕ) (u c d : Tree) (gs : List Frame)
    → Kept t q x xp u (frame s true xp c ∷ frame s false w d ∷ gs)
    → (x ≡ 0 → q ≡ xp)
    → red_top u ≡ false
    → Sound u n
    → red_top c ≡ false
    → Sound c (suc n)
    → Sound d (suc n)
    → SoundPath gs (suc (suc n))
    → LoweredBy (black_beside s t x) (rows (plug gs (mk s false (mk s true u xp c) w d))) 0
black_turn_after s t q x xp w n u c d gs kept noted ru su rc sc sd path =
    let (c1, k, c2, c_eq, s1, s2) = black_side s c n rc sc in
    let rest = frame s false w d ∷ gs in
    subst (λ v. LoweredBy (black_beside s t x) (rows (plug rest (mk s true u xp v))) 0) (sym c_eq)
      (beside-Lowered s t q x xp xp k n true u c1 c2 rest
        (subst (λ v. Kept t q x xp u (frame s true xp v ∷ rest)) c_eq kept) noted ru su s1 s2
        (refl, (sd, path)))

-- Case 1, and the turn behind it.
red_turn :
    (s : Side) (t : Rbt) (q x p xp n : ℕ) (u b : Tree) (gs : List Frame)
    → Kept t q x p u (frame s false xp b ∷ gs)
    → (x ≡ 0 → q ≡ p)
    → red_top u ≡ false
    → Sound u n
    → SoundPath (frame s false xp b ∷ gs) (suc n)
    → red_top b ≡ true
    → LoweredBy (delete_turn s t x) (rows (plug gs (mk s false u xp b))) 0
red_turn s t q x p xp n u b gs kept noted ru su path rb =
    let (c, w, d, b_eq, rc, rd, sc, sd) = from_side s b (suc n) rb path.0 in
    let b_at =
      open_node t.nodes xp (child (other s) (t.nodes xp)) s true c w d
        (subst (λ v. Rep t.nodes xp (child (other s) (t.nodes xp)) v) b_eq kept.0.1.4) in
    let kept' = subst (λ v. Kept t q x p u (frame s false xp v ∷ gs)) b_eq kept in
    let t1 = case1 s t xp w in
    let (y, p', (held, null, par)) = case1_lem s t q xp w gs u c d (
      xp,
      (t.nodes xp).rb_parent,
      (step_up t x p u (frame s false xp (mk s true c w d)) gs kept'.0, kept.1, kept.2),
    ) in
    let at_xp = step_down t1 y p' s false (mk s true u xp c) w d gs held in
    let at_u = step_down t1 (child s (t1.nodes w)) w s true u xp c (frame s false w d ∷ gs) at_xp in
    let x_eq : child s (t1.nodes xp) ≡ x =
      same_root t1.nodes t.nodes xp p (child s (t1.nodes xp)) x u at_u.0 kept.0.0 in
    let now : Kept t1 q x xp u (frame s true xp c ∷ frame s false w d ∷ gs) = (
      subst (λ v. Holds t1 v xp u (frame s true xp c ∷ frame s false w d ∷ gs)) x_eq at_u,
      null,
      par,
    ) in
    let done =
      black_turn_after s t1 q x xp w n u c d gs now (λ e. noted e ∙ kept.0.1.0) ru su rc sc sd
        path.1 in
    subst (λ o. LoweredBy o (rows (plug gs (mk s false u xp b))) 0)
      (sym (turns_red s t q x p xp n false u b gs kept noted ru su path w b_at.0 rb))
      (subst (λ v. LoweredBy (black_beside s t1 x) v 0)
        (rows-plug gs (mk s false (mk s true u xp c) w d) (mk s false u xp b) (
          sym (rows-turn s false true true false u c d xp w)
          ∙ ap (λ v. rows (mk s false u xp v)) (sym b_eq)))
        done)

pub turn_down :
    (s : Side) (t : Rbt) (q x p xp n : ℕ) (f : Bool) (u b : Tree) (gs : List Frame)
    → Kept t q x p u (frame s f xp b ∷ gs)
    → (x ≡ 0 → q ≡ p)
    → red_top u ≡ false
    → Sound u n
    → SoundPath (frame s f xp b ∷ gs) (suc n)
    → (rb : Bool) → red_top b ≡ rb
    → LoweredBy (delete_turn s t x) (rows (plug gs (mk s f u xp b))) (if f then 0 else length gs)
turn_down s t q x p xp n f u b gs kept noted ru su path false rb =
    black_turn s t q x p xp n f u b gs kept noted ru su path rb
turn_down s t q x p xp n true u b gs kept noted ru su path true rb = cc (path.0, rb)
turn_down s t q x p xp n false u b gs kept noted ru su path true rb =
    let (q', p', u', n', fs', lacks, order, low) =
      red_turn s t q x p xp n u b gs kept noted ru su path rb in
    (q', p', u', n', fs', lacks, order, omega (arith, low))
