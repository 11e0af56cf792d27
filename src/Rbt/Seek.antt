-- ===== src/Rbt/Seek.antt =====
-- Where a row stands in the tree.
use native.Mathlib.Decide.{dec_lt}
use cross_db.Base.{ℕ, ◌+◌, ◌≤◌, ◌<◌, ◌≡◌, refl, sym, ap, ◌∙◌, Bool, List, ◌∷◌, arith, subst, length}
use cross_db.Rbt.{Rbt, Side, left, right}
use cross_db.Rbt.Tree.{Tree, tip, bin, mk, Frame, plug, count}
use cross_db.Rbt.Shape.{frame, Holds, step_down}
use cross_db.Rbt.Descend.{depth, max_left, max_right}
use cross_db.Rbt.Landing.{SoundAround, sound_down}

-- Where the row `z` stands in the tree `u` below the path `fs`.
pub record Found (t : Rbt) (z : ℕ) (u : Tree) (fs : List Frame) : Type 0 where
  pub x : ℕ
  pub p : ℕ
  pub red : Bool
  pub before : Tree
  pub behind : Tree
  pub path : List Frame
  pub holds : Holds t x p (bin red before z behind) path
  pub sound : SoundAround (bin red before z behind) path
  pub whole_eq : plug path (bin red before z behind) ≡ plug fs u
  pub short : length path + depth (bin red before z behind) ≤ length fs + depth u

deeper :
    (t : Rbt) (z k : ℕ) (s : Side) (c : Bool) (a b u : Tree) (fs : List Frame)
    → depth a < depth u
    → mk s c a k b ≡ u
    → Found t z a (frame s c k b ∷ fs)
    → Found t z u fs
deeper t z k s c a b u fs less e f = record {
  x = f.x;
  p = f.p;
  red = f.red;
  before = f.before;
  behind = f.behind;
  path = f.path;
  holds = f.holds;
  sound = f.sound;
  whole_eq = f.whole_eq ∙ ap (λ v. plug fs v) e;
  short = omega (arith, f.short, less);
}

pub seek :
    (t : Rbt) (z x p : ℕ) (u : Tree) (fs : List Frame)
    → Holds t x p u fs
    → SoundAround u fs
    → 1 ≤ count z u
    → Found t z u fs
seek t z x p tip fs holds sound stands = absurd (omega (arith, stands))
seek t z x p (bin c l k r) fs holds sound stands = elim (dec_lt 0 (count z l)) [
  | yes h ↦
      deeper t z k left c l r (bin c l k r) fs (omega (arith, max_left (depth l) (depth r))) refl (
        seek t z (t.nodes k).rb_left k l (frame left c k r ∷ fs)
          (step_down t x p left c l k r fs holds) (sound_down left c l k r fs sound)
          (omega (arith, h)))
  | no h ↦ elim (dec_lt 0 (count z r)) [
    | yes i ↦
        deeper t z k right c r l (bin c l k r) fs (omega (arith, max_right (depth l) (depth r)))
          refl
          (seek t z (t.nodes k).rb_right k r (frame right c k l ∷ fs)
            (step_down t x p right c r k l fs holds) (sound_down right c r k l fs sound)
            (omega (arith, i)))
    | no i ↦
        let e : k ≡ z = ground arith in
        record {
          x = x;
          p = p;
          red = c;
          before = l;
          behind = r;
          path = fs;
          holds = subst (λ j. Holds t x p (bin c l j r) fs) e holds;
          sound = subst (λ j. SoundAround (bin c l j r) fs) e sound;
          whole_eq = ap (λ j. plug fs (bin c l j r)) (sym e);
          short = omega (arith, max_left (depth l) (depth r));
        }
  ]
]
