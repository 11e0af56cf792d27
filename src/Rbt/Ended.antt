-- ===== src/Rbt/Ended.antt =====
-- `xdb_rb_insert_fixup` ends and leaves a sound tree with a black root.
use cross_db.Base.{
  ℕ, zero, suc, ◌≤◌, ◌<◌, ◌≡◌, refl, sym, ap, ◌∙◌, Bool, true, false, ◌==◌, if◌then◌else◌, some,
  List, [], ◌∷◌, arith, subst, length, Bool-cases, inl, inr,
}
use cross_db.Rbt.{Rbt, Side, left, right, is_red, blacken, insert_turn, insert_fixup}
use cross_db.Rbt.Tree.{Tree, tip, bin, rows, mk, Rep, Frame, plug, count}
use cross_db.Rbt.Shape.{frame, Holds, step_up, Recolored, blacken-Recolored, recolor}
use cross_db.Rbt.Sound.{
  red_top, Sound, UnderBlack, Fits, SoundPath, Sound-red, Sound-black, red_top-mk,
}
use cross_db.Rbt.Step.{NullBlack, null_kept}
use cross_db.Rbt.Fixup.{Ready}
use cross_db.Rbt.Repair.{turn_lem, side_found, red_nonzero, one_child}

-- The index holds a red-black tree with these rows in order.
pub record IsTree (t : Rbt) (xs : List ℕ) : Type 0 where
  pub tree : Tree
  pub height : ℕ
  pub held : Rep t.nodes 0 t.rb_root tree
  pub once : (k : ℕ) → count k tree ≤ 1
  pub in_order : rows tree ≡ xs
  pub black : red_top tree ≡ false
  pub sound : Sound tree height
  pub null_black : NullBlack t

pub whole :
    (t : Rbt) (x p : ℕ) (u : Tree) (fs : List Frame)
    → Holds t x p u fs
    → Holds t t.rb_root 0 (plug fs u) []
whole t x p u [] (rep, up, once) = (
  subst (λ v. Rep t.nodes 0 v u) up.0 (subst (λ v. Rep t.nodes v x u) up.1 rep),
  (refl, refl),
  once,
)
whole t x p u (f ∷ fs) holds =
    whole t f.key (t.nodes f.key).rb_parent (mk f.side f.red u f.key f.sib) fs
      (step_up t x p u f fs holds)

plug_one :
    (s : Side) (c : Bool) (u : Tree) (k : ℕ) (b : Tree) (fs : List Frame) (n : ℕ)
    → Fits c b n fs (λ m. SoundPath fs m)
    → Sound u n
    → (red_top u ≡ true → c ≡ false)
    → (m : ℕ) × Sound (mk s c u k b) m
      × SoundPath fs m
      × (red_top (mk s c u k b) ≡ true → UnderBlack fs)
plug_one s true u k b fs n fits su under =
    let black : red_top u ≡ false = elim (Bool-cases (red_top u)) [
      | inl e ↦ cc (under e)
      | inr e ↦ e
    ] in
    (n, Sound-red s u b k n black fits.0 su fits.1, fits.3, λ e. fits.2)
plug_one s false u k b fs n fits su under =
    (suc n, Sound-black s u b k n su fits.0, fits.1, λ e. cc (e, red_top-mk s false u k b))

-- A sound path around a tree whose top is black, or has a black node above.
pub plug-Sound :
    (fs : List Frame) (u : Tree) (n : ℕ)
    → SoundPath fs n
    → Sound u n
    → (red_top u ≡ true → UnderBlack fs)
    → (m : ℕ) × Sound (plug fs u) m × (red_top (plug fs u) ≡ false)
plug-Sound [] u n path su under = elim (Bool-cases (red_top u)) [
  | inl e ↦ absurd (under e)
  | inr e ↦ (n, su, e)
]
plug-Sound (f ∷ fs) u n path su under =
    let (m, sound, above_sound, below) = plug_one f.side f.red u f.key f.sib fs n path su under in
    plug-Sound fs (mk f.side f.red u f.key f.sib) m above_sound sound below

-- The tree with a black top.
abbrev pub darken : Tree → Tree
darken tip = tip
darken (bin c l k r) = bin false l k r

pub darken_black : (u : Tree) → red_top u ≡ false → darken u ≡ u
darken_black tip e = refl
darken_black (bin c l k r) e = rw e refl

darken-Sound : (u : Tree) (n : ℕ) → red_top u ≡ true → Sound u n → (m : ℕ) × Sound (darken u) m
darken-Sound tip n e s = cc
darken-Sound (bin false l k r) n e s = cc
darken-Sound (bin true l k r) n e s = (suc n, (s.2, s.3))

-- The last line of `xdb_rb_insert_fixup`.
unfoldable pub finished : Rbt → Rbt
finished t = record t { nodes = blacken t.nodes t.rb_root }

pub finish :
    (t : Rbt) (u : Tree) (m : ℕ)
    → Holds t t.rb_root 0 u []
    → NullBlack t
    → Sound (darken u) m
    → IsTree (finished t) (rows u)
unfolding finished
finish t tip m (rep, up, once) null sound = record {
  tree = tip;
  height = m;
  held = rep;
  once = λ k. omega (arith, once k);
  in_order = refl;
  black = refl;
  sound = sound;
  null_black =
      subst (λ v. is_red (blacken t.nodes t.rb_root) v ≡ false) rep
        (blacken-Recolored t.nodes t.rb_root).4;
}
finish t (bin c l k r) m holds null sound =
    let changed : Recolored t.nodes (blacken t.nodes t.rb_root) k false =
      subst (λ v. Recolored t.nodes (blacken t.nodes t.rb_root) v false) holds.0.0
        (blacken-Recolored t.nodes t.rb_root) in
    let (rep, up, once) =
      recolor t (blacken t.nodes t.rb_root) t.rb_root 0 left c false l k r [] changed holds in
    record {
      tree = bin false l k r;
      height = m;
      held = rep;
      once = λ j. omega (arith, once j);
      in_order = refl;
      black = refl;
      sound = sound;
      null_black = null_kept t.nodes (blacken t.nodes t.rb_root) k false holds.0.1 changed null;
    }

stops :
    (turns : ℕ) (t : Rbt) (z p : ℕ)
    → (t.nodes z).rb_parent ≡ p
    → is_red t.nodes p ≡ false
    → insert_fixup (suc turns) t z ≡ some (finished t)
unfolding insert_fixup finished
stops turns t z p e red = rw (e, red) refl

goes_on :
    (turns : ℕ) (t : Rbt) (z kf kg : ℕ) (s : Side)
    → (t.nodes z).rb_parent ≡ kf
    → (t.nodes kf).rb_parent ≡ kg
    → (if kf == (t.nodes kg).rb_left then left else right) ≡ s
    → is_red t.nodes kf ≡ true
    → insert_fixup (suc turns) t z
      ≡ insert_fixup turns (insert_turn s t z kf kg).0 (insert_turn s t z kf kg).1
unfolding insert_fixup
goes_on turns t z kf kg s e i side red = rw (e, i, side, red) refl

-- The loop at a node below a red one.
enters :
    (turns : ℕ) (t : Rbt) (z p n kf kg : ℕ) (u bf bg : Tree) (gs : List Frame) (sf sg : Side)
    → Ready t z p u n (frame sf true kf bf ∷ frame sg false kg bg ∷ gs)
    → insert_fixup (suc turns) t z
      ≡ insert_fixup turns (insert_turn sg t z kf kg).0 (insert_turn sg t z kf kg).1
enters turns t z p n kf kg u bf bg gs sf sg (holds, ru, su, path, null) =
    let (z_nz, z_up) = red_nonzero t.nodes p z u holds.0 ru in
    let at_f = step_up t z p u (frame sf true kf bf) (frame sg false kg bg ∷ gs) holds in
    let f_up : (t.nodes kf).rb_parent ≡ kg = holds.1.5.0 in
    let apart =
      one_child t.nodes kg kf sg (mk sf true u kf bf) bg holds.1.1 (λ j. omega (arith, at_f.2 j))
        (subst (λ v. Rep t.nodes v kf (mk sf true u kf bf)) f_up at_f.0) holds.1.5.4 in
    goes_on turns t z kf kg sg (z_up ∙ holds.1.0) f_up
      (side_found t.nodes kf kg sg holds.1.5.2 apart) holds.1.3

-- A frame with the colour that it has.
frame_eq : (f : Frame) (c : Bool) → f.red ≡ c → f ≡ frame f.side c f.key f.sib
frame_eq f c e = ap (λ (v : Bool). frame f.side v f.key f.sib) e

below_black :
    (turns : ℕ) (t : Rbt) (z p n : ℕ) (u : Tree) (fs : List Frame)
    → Ready t z p u n fs
    → is_red t.nodes p ≡ false
    → ((m : ℕ) × Sound (darken (plug fs u)) m)
    → (t' : Rbt) × (insert_fixup (suc turns) t z ≡ some t') × IsTree t' (rows (plug fs u))
below_black turns t z p n u fs (holds, ru, su, path, null) red (m, sound) =
    let (z_nz, z_up) = red_nonzero t.nodes p z u holds.0 ru in
    (
      finished t,
      stops turns t z p z_up red,
      finish t (plug fs u) m (whole t z p u fs holds) null sound,
    )

-- The loop with this many turns ends with the rows in order.
abbrev Ends : ℕ → Type 0
Ends turns =
    (t : Rbt) (z p n : ℕ) (u : Tree) (fs : List Frame)
    → Ready t z p u n fs
    → length fs < turns
    → (t' : Rbt) × (insert_fixup turns t z ≡ some t') × IsTree t' (rows (plug fs u))

fixup_step :
    (turns : ℕ)
    → Ends turns
    → (t : Rbt) (z p n : ℕ) (u : Tree) (f : Frame) (gs : List Frame) (c : Bool) → f.red ≡ c
    → Ready t z p u n (f ∷ gs)
    → length (f ∷ gs) < suc turns
    → (t' : Rbt) × (insert_fixup (suc turns) t z ≡ some t') × IsTree t' (rows (plug (f ∷ gs) u))
fixup_step turns rec t z p n u f gs false e r l =
    let (m, sound, black) = plug-Sound (f ∷ gs) u n r.3 r.2 (λ i. e) in
    below_black turns t z p n u (f ∷ gs) r (rw r.0.1.0 (r.0.1.3 ∙ e))
      (m, subst (λ v. Sound v m) (sym (darken_black (plug (f ∷ gs) u) black)) sound)
fixup_step turns rec t z p n u f [] true e r l =
    absurd (subst (λ c. Fits c f.sib n [] (λ m. SoundPath [] m)) e r.3).2
fixup_step turns rec t z p n u f (g ∷ gs) true e r l =
    let g_black = (subst (λ c. Fits c f.sib n (g ∷ gs) (λ m. SoundPath (g ∷ gs) m)) e r.3).2 in
    let f' = frame f.side true f.key f.sib in
    let g' = frame g.side false g.key g.sib in
    let same : f ∷ g ∷ gs ≡ f' ∷ g' ∷ gs =
      ap (λ (v : Frame). v ∷ g ∷ gs) (frame_eq f true e)
      ∙ ap (λ (v : Frame). f' ∷ v ∷ gs) (frame_eq g false g_black) in
    let r' : Ready t z p u n (f' ∷ g' ∷ gs) = subst (λ v. Ready t z p u n v) same r in
    let out = insert_turn g.side t z f.key g.key in
    let (p', u', n', fs', ready', order, shorter) =
      turn_lem t z p n f.key g.key u f.sib g.sib gs f.side g.side r' in
    let (t', runs, is_tree) = rec out.0 out.1 p' n' u' fs' ready' (omega (arith, shorter, l)) in
    (
      t',
      enters turns t z p n f.key g.key u f.sib g.sib gs f.side g.side r' ∙ runs,
      subst (λ v. IsTree t' v) (order ∙ ap (λ v. rows (plug v u)) (sym same)) is_tree,
    )

pub insert_fixup-IsTree : (turns : ℕ) → Ends turns
insert_fixup-IsTree zero t z p n u fs ready short = absurd (omega arith)
insert_fixup-IsTree (suc turns) t z p n u [] ready short =
    below_black turns t z p n u [] ready (rw ready.0.1.1 ready.4) (darken-Sound u n ready.1 ready.2)
insert_fixup-IsTree (suc turns) t z p n u (f ∷ fs) ready short =
    fixup_step turns (insert_fixup-IsTree turns) t z p n u f fs f.red refl ready short
