-- ===== src/Rbt/Deleted.antt =====
-- The loop of `xdb_rb_delete_fixup` ends, and leaves a sound tree with the rows in their order.
use cross_db.Base.{
  ℕ, zero, suc, ◌+◌, ◌≤◌, ◌<◌, ◌≡◌, ◌≢◌, refl, sym, ap, ◌∙◌, Bool, true, false, ◌==◌, if◌then◌else◌,
  some, List, [], ◌∷◌, arith, subst, length, eq→==, ne→==,
}
use cross_db.Rbt.{Rbt, RbNode, Side, left, right, other, child, is_red, blacken}
use cross_db.Rbt.Remove.{delete_turn, delete_fixup}
use cross_db.Rbt.Tree.{
  Tree, tip, bin, rows, Rep, Frame, plug, PathUp, above, count, Rep-counted, at_self,
}
use cross_db.Rbt.Shape.{frame, Holds, rows-plug, Recolored, blacken-Recolored, recolor}
use cross_db.Rbt.Sound.{red_top, Sound, SoundPath}
use cross_db.Rbt.Step.{is_red-top, null_kept}
use cross_db.Rbt.Repair.{side_found}
use cross_db.Rbt.Ended.{IsTree, whole, plug-Sound, darken, finish, finished}
use cross_db.Rbt.Lower.{Short, Lacks, cost, Sound-Short}
use cross_db.Rbt.Shrunk.{turn_down, found_parent}

-- The loop with this many turns ends with the rows in order.
abbrev pub Deletes : ℕ → Type 0
Deletes turns =
    (t : Rbt) (q x p : ℕ) (u : Tree) (n : ℕ) (fs : List Frame)
    → Lacks t q x p u n fs
    → cost u fs < turns
    → (t' : Rbt) × (delete_fixup turns t x ≡ some t') × IsTree t' (rows (plug fs u))

blackened : Rbt → ℕ → Rbt
blackened t x = record t { nodes = blacken t.nodes x }

ends_root :
    (turns : ℕ) (t : Rbt) (x : ℕ)
    → x ≡ t.rb_root
    → delete_fixup (suc turns) t x ≡ some (blackened t x)
unfolding delete_fixup blackened
ends_root turns t x e = rw (eq→== x t.rb_root e) refl

ends_red :
    (turns : ℕ) (t : Rbt) (x : ℕ) (r : Bool)
    → (x == t.rb_root) ≡ r
    → is_red t.nodes x ≡ true
    → delete_fixup (suc turns) t x ≡ some (blackened t x)
unfolding delete_fixup blackened
ends_red turns t x true e i = rw e refl
ends_red turns t x false e i = rw (e, i) refl

goes_down :
    (turns : ℕ) (t : Rbt) (x xp : ℕ) (s : Side)
    → (t.nodes x).rb_parent ≡ xp
    → (if x == (t.nodes xp).rb_left then left else right) ≡ s
    → x ≢ t.rb_root
    → is_red t.nodes x ≡ false
    → delete_fixup (suc turns) t x ≡ delete_fixup turns (delete_turn s t x).0 (delete_turn s t x).1
unfolding delete_fixup
goes_down turns t x xp s e side n i = rw (e, side, ne→== x t.rb_root n, i) refl

Short-dark : (u : Tree) (n : ℕ) → Short u n → (m : ℕ) × Sound (darken u) m
Short-dark tip n s = (n, s)
Short-dark (bin true l k r) n s = (suc n, s)
Short-dark (bin false l k r) n s = (n, s)

at_root :
    (turns : ℕ) (t : Rbt) (q x p : ℕ) (u : Tree) (n : ℕ)
    → Lacks t q x p u n []
    → (t' : Rbt) × (delete_fixup (suc turns) t x ≡ some t') × IsTree t' (rows u)
unfolding blackened finished
at_root turns t q x p u n ((holds, null, par), noted, short, path) =
    let (m, sound) = Short-dark u n short in
    (
      finished t,
      ends_root turns t x holds.1.0 ∙ ap (λ v. some (blackened t v)) holds.1.0,
      finish t u m (whole t x p u [] holds) null sound,
    )

at_red :
    (turns : ℕ) (t : Rbt) (q x p : ℕ) (l : Tree) (k : ℕ) (r : Tree) (n : ℕ) (fs : List Frame)
    → Lacks t q x p (bin true l k r) n fs
    → (t' : Rbt) × (delete_fixup (suc turns) t x ≡ some t')
      × IsTree t' (rows (plug fs (bin true l k r)))
unfolding blackened
at_red turns t q x p l k r n fs ((holds, null, par), noted, short, path) =
    let x_eq = holds.0.0 in
    let changed : Recolored t.nodes (blacken t.nodes x) k false =
      subst (λ v. Recolored t.nodes (blacken t.nodes x) v false) x_eq
        (blacken-Recolored t.nodes x) in
    let t' = blackened t x in
    let held = recolor t (blacken t.nodes x) x p left true false l k r fs changed holds in
    let (rep, up, once) = whole t' x p (bin false l k r) fs held in
    let (m, sound, black) = plug-Sound fs (bin false l k r) (suc n) path short (λ e. cc) in
    (
      t',
      ends_red turns t x (x == t.rb_root) refl
          (is_red-top t.nodes p x (bin true l k r) null holds.0),
      record {
        tree = plug fs (bin false l k r);
        height = m;
        held = rep;
        once = λ j. omega (arith, once j);
        in_order = rows-plug fs (bin false l k r) (bin true l k r) refl;
        black = black;
        sound = sound;
        null_black = null_kept t.nodes (blacken t.nodes x) k false holds.0.1 changed null;
      },
    )

-- The root stands at the end of the path.
root_above :
    (h : ℕ → RbNode) (root x p : ℕ) (f : Frame) (fs : List Frame)
    → PathUp h root x p (f ∷ fs)
    → (root ≢ 0) × (1 ≤ above root (f ∷ fs))
root_above h root x p f [] up = (
  (λ e. up.1 (up.5.0 ∙ e)),
  subst (λ v. 1 ≤ above v (f ∷ [])) up.5.0 (omega (arith, at_self f.key)),
)
root_above h root x p f (g ∷ gs) up =
    let (nz, stands) = root_above h root f.key (h f.key).rb_parent g gs up.5 in
    (nz, omega (arith, stands))

below_root :
    (t : Rbt) (x p : ℕ) (u : Tree) (f : Frame) (fs : List Frame)
    → Holds t x p u (f ∷ fs)
    → x ≢ t.rb_root
below_root t x p u f fs (rep, up, once) e =
    let (nz, stands) = root_above t.nodes t.rb_root x p f fs up in
    omega (
      arith,
      once t.rb_root,
      stands,
      subst (λ v. 1 ≤ count v u) e (Rep-counted t.nodes p x u rep (λ i. nz (sym e ∙ i))),
    )

-- The parent has `x` on the side of the path only.
side_at :
    (t : Rbt) (x p xp : ℕ) (s : Side) (f : Bool) (u b : Tree) (n : ℕ) (gs : List Frame)
    → Holds t x p u (frame s f xp b ∷ gs)
    → Sound b (suc n)
    → (if x == (t.nodes xp).rb_left then left else right) ≡ s
side_at t x p xp s f u b n gs (rep, up, once) sb =
    side_found t.nodes x xp s up.2
      λ e. apart (child (other s) (t.nodes xp)) e b up.4 sb (λ j. omega (arith, once j)) rep
  where
    apart :
        (w : ℕ)
        → w ≡ x
        → (c : Tree) → Rep t.nodes xp w c
        → Sound c (suc n)
        → ((j : ℕ) → count j u + count j c ≤ 1)
        → Rep t.nodes p x u
        → ⊥
    apart w e tip r h o at_x = omega (arith, h)
    apart w e (bin c l k r) rep h o at_x =
        let x_nz : x ≢ 0 = λ i. rep.1 (sym rep.0 ∙ e ∙ i) in
        omega (
          arith,
          o x,
          Rep-counted t.nodes p x u at_x x_nz,
          subst (λ v. 1 ≤ count v (bin c l k r)) e
              (Rep-counted t.nodes xp w (bin c l k r) rep (λ i. x_nz (sym e ∙ i))),
        )

sib_height :
    (s : Side) (f : Bool) (xp : ℕ) (b : Tree) (gs : List Frame) (n : ℕ)
    → SoundPath (frame s f xp b ∷ gs) n
    → Sound b n
sib_height s true xp b gs n h = h.1
sib_height s false xp b gs n h = h.0

if-le : (f : Bool) (m : ℕ) → (if f then 0 else m) ≤ m
if-le true m = omega arith
if-le false m = omega arith

at_black :
    (turns : ℕ)
    → Deletes turns
    → (t : Rbt) (q x p : ℕ) (u : Tree) (n : ℕ) (f : Frame) (gs : List Frame)
    → Lacks t q x p u n (f ∷ gs)
    → red_top u ≡ false
    → length gs < turns
    → (t' : Rbt) × (delete_fixup (suc turns) t x ≡ some t') × IsTree t' (rows (plug (f ∷ gs) u))
at_black turns rec t q x p u n f gs (kept, noted, short, path) ru less =
    let su = Sound-Short u n ru short in
    let x_up = found_parent f.side t q x p f.key n f.red u f.sib gs kept noted ru su path in
    let side =
      side_at t x p f.key f.side f.red u f.sib n gs kept.0
        (sib_height f.side f.red f.key f.sib gs (suc n) path) in
    let (q', p', u', n', fs', lacks, order, low) =
      turn_down f.side t q x p f.key n f.red u f.sib gs kept noted ru su path (red_top f.sib)
        refl in
    let out = delete_turn f.side t x in
    let (t', runs, is_tree) =
      rec out.0 q' out.1 p' u' n' fs' lacks (omega (arith, low, less, if-le f.red (length gs))) in
    (
      t',
      goes_down turns t x f.key f.side x_up side (below_root t x p u f gs kept.0)
            (is_red-top t.nodes p x u kept.1 kept.0.0 ∙ ru)
          ∙ runs,
      subst (λ v. IsTree t' v) order is_tree,
    )

pub delete_fixup-IsTree : (turns : ℕ) → Deletes turns
delete_fixup-IsTree zero t q x p u n fs lacks low = absurd (omega arith)
delete_fixup-IsTree (suc turns) t q x p u n [] lacks low = at_root turns t q x p u n lacks
delete_fixup-IsTree (suc turns) t q x p (bin true l k r) n (f ∷ fs) lacks low =
    at_red turns t q x p l k r n (f ∷ fs) lacks
delete_fixup-IsTree (suc turns) t q x p tip n (f ∷ fs) lacks low =
    at_black turns (delete_fixup-IsTree turns) t q x p tip n f fs lacks refl (omega (arith, low))
delete_fixup-IsTree (suc turns) t q x p (bin false l k r) n (f ∷ fs) lacks low =
    at_black turns (delete_fixup-IsTree turns) t q x p (bin false l k r) n f fs lacks refl
      (omega (arith, low))
