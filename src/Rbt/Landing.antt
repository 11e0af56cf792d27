-- ===== src/Rbt/Landing.antt =====
-- Where the descent of `xdb_rbtree_add` ends for a key that is not in the tree.
use Prim.Native.Nat.{Ordering}
use cross_db.Base.{
  ℕ, zero, suc, ◌+◌, ◌≤◌, ◌<◌, ◌≡◌, ◌≢◌, refl, sym, ap, ◌∙◌, Bool, true, false, some, List, ◌∷◌,
  arith, subst, length, ne→==, All, All-left, All-right,
}
use cross_db.Rbt.{Rbt, Side, left, right, child, descend}
use cross_db.Rbt.Tree.{Tree, tip, bin, rows, mk, Frame, plug}
use cross_db.Rbt.Shape.{frame, Holds, step_down}
use cross_db.Rbt.Sound.{red_top, Sound, UnderBlack, SoundPath}
use cross_db.Rbt.Hang.{Hung}
use cross_db.Rbt.Descend.{ins, depth, max_left, max_right}

-- The path is sound around the tree, which may be red below a black node only.
abbrev pub SoundAround : Tree → List Frame → Type 0
SoundAround u fs = (n : ℕ) × Sound u n × SoundPath fs n × (red_top u ≡ true → UnderBlack fs)

-- The soundness goes along with a step to the side `s`.
pub sound_down :
    (s : Side) (c : Bool) (a : Tree) (k : ℕ) (b : Tree) (fs : List Frame)
    → SoundAround (mk s c a k b) fs
    → SoundAround a (frame s c k b ∷ fs)
sound_down left true a k b fs (n, su, path, under) =
    (n, su.2, (su.1, su.3, under refl, path), λ e. cc (e, su.0))
sound_down right true a k b fs (n, su, path, under) =
    (n, su.3, (su.0, su.2, under refl, path), λ e. cc (e, su.1))
sound_down left false a k b fs (zero, su, path, under) = absurd su
sound_down left false a k b fs (suc n, su, path, under) = (n, su.0, (su.1, path), λ e. refl)
sound_down right false a k b fs (zero, su, path, under) = absurd su
sound_down right false a k b fs (suc n, su, path, under) = (n, su.1, (su.0, path), λ e. refl)

module _ (cmp : ℕ → Ordering) (z : ℕ) (t : Rbt) where
  -- The end of a descent that has `turns` to go at `x`.
  pub record Landed (turns x p : ℕ) (u : Tree) (fs : List Frame) (last : Ordering) : Type 0 where
    pub y : ℕ
    pub final : Ordering
    pub path : List Frame
    pub runs : descend turns t.nodes cmp x p last ≡ some (0, y, final)
    pub holds : Holds t 0 y tip path
    pub hung : Hung final path
    pub grown : plug path (bin true tip z tip) ≡ plug fs (ins cmp z u)
    pub short : length path ≤ length fs + depth u
    pub sound : SoundAround tip path

  descend_at :
      (turns x p : ℕ) (last o : Ordering)
      → x ≢ 0
      → cmp x ≡ o
      → descend (suc turns) t.nodes cmp x p last ≡ elim o [
        | Ordering.lt ↦ descend turns t.nodes cmp (t.nodes x).rb_left x Ordering.lt
        | Ordering.eq ↦ some (x, p, Ordering.eq)
        | Ordering.gt ↦ descend turns t.nodes cmp (t.nodes x).rb_right x Ordering.gt
      ]
  unfolding descend
  descend_at turns x p last o n e = rw (ne→== x 0 n, e) refl

  -- The rest of a descent that goes on to the side `s` of a node.
  land_child :
      (turns x p : ℕ) (last o : Ordering) (c : Bool) (l : Tree) (k : ℕ) (r : Tree) (fs : List Frame)
      (s : Side) (a b : Tree)
      → x ≡ k
      → descend (suc turns) t.nodes cmp x p last
        ≡ descend turns t.nodes cmp (child s (t.nodes k)) k o
      → depth a < depth (bin c l k r)
      → plug (frame s c k b ∷ fs) (ins cmp z a) ≡ plug fs (ins cmp z (bin c l k r))
      → Landed turns (child s (t.nodes k)) k a (frame s c k b ∷ fs) o
      → Landed (suc turns) x p (bin c l k r) fs last
  land_child turns x p last o c l k r fs s a b x_eq runs deeper grows at_child =
      let d = at_child in
      record {
        y = d.y;
        final = d.final;
        path = d.path;
        runs = runs ∙ d.runs;
        holds = d.holds;
        hung = d.hung;
        grown = d.grown ∙ grows;
        short = omega (arith, d.short, deeper);
        sound = d.sound;
      }

  land_node :
      (turns x p : ℕ) (c : Bool) (l : Tree) (k : ℕ) (r : Tree) (fs : List Frame) (last o : Ordering)
      → cmp k ≡ o
      → Holds t x p (bin c l k r) fs
      → cmp k ≢ Ordering.eq
      → (Holds t (t.nodes k).rb_left k l (frame left c k r ∷ fs)
          → Landed turns (t.nodes k).rb_left k l (frame left c k r ∷ fs) Ordering.lt)
      → (Holds t (t.nodes k).rb_right k r (frame right c k l ∷ fs)
          → Landed turns (t.nodes k).rb_right k r (frame right c k l ∷ fs) Ordering.gt)
      → Landed (suc turns) x p (bin c l k r) fs last
  land_node turns x p c l k r fs last Ordering.lt e holds new lower higher =
      let x_eq = holds.0.0 in
      land_child turns x p last Ordering.lt c l k r fs left l r x_eq
        (descend_at turns x p last Ordering.lt (λ i. holds.0.1 (sym x_eq ∙ i)) (ap cmp x_eq ∙ e)
          ∙ ap (λ v. descend turns t.nodes cmp (t.nodes v).rb_left v Ordering.lt) x_eq)
        (omega (arith, max_left (depth l) (depth r)))
        (ap
          (λ (o : Ordering).
            plug fs
              (elim o [ Ordering.lt ↦ bin c (ins cmp z l) k r | _ ↦ bin c l k (ins cmp z r) ]))
          (sym e))
        (lower (step_down t x p left c l k r fs holds))
  land_node turns x p c l k r fs last Ordering.gt e holds new lower higher =
      let x_eq = holds.0.0 in
      land_child turns x p last Ordering.gt c l k r fs right r l x_eq
        (descend_at turns x p last Ordering.gt (λ i. holds.0.1 (sym x_eq ∙ i)) (ap cmp x_eq ∙ e)
          ∙ ap (λ v. descend turns t.nodes cmp (t.nodes v).rb_right v Ordering.gt) x_eq)
        (omega (arith, max_right (depth l) (depth r)))
        (ap
          (λ (o : Ordering).
            plug fs
              (elim o [ Ordering.lt ↦ bin c (ins cmp z l) k r | _ ↦ bin c l k (ins cmp z r) ]))
          (sym e))
        (higher (step_down t x p right c r k l fs holds))
  land_node turns x p c l k r fs last Ordering.eq e holds new lower higher = absurd (new e)

  pub land :
      (turns x p : ℕ) (u : Tree) (fs : List Frame) (last : Ordering)
      → Holds t x p u fs
      → Hung last fs
      → SoundAround u fs
      → All (λ k. cmp k ≢ Ordering.eq) (rows u)
      → depth u < turns
      → Landed turns x p u fs last
  unfolding descend
  land zero x p u fs last holds hung sound new short = absurd (omega arith)
  land (suc turns) x p tip fs last holds hung sound new short = record {
    y = p;
    final = last;
    path = fs;
    runs = rw holds.0 refl;
    holds = subst (λ v. Holds t v p tip fs) holds.0 holds;
    hung = hung;
    grown = refl;
    short = omega arith;
    sound = sound;
  }
  land (suc turns) x p (bin c l k r) fs last holds hung sound new short =
      land_node turns x p c l k r fs last (cmp k) refl holds
        (All-right (λ j. cmp j ≢ Ordering.eq) (rows l) (k ∷ rows r) new).0
        (λ h.
          land turns (t.nodes k).rb_left k l (frame left c k r ∷ fs) Ordering.lt h refl
            (sound_down left c l k r fs sound)
            (All-left (λ j. cmp j ≢ Ordering.eq) (rows l) (k ∷ rows r) new)
            (omega (arith, short, max_left (depth l) (depth r))))
        (λ h.
          land turns (t.nodes k).rb_right k r (frame right c k l ∷ fs) Ordering.gt h refl
            (sound_down right c r k l fs sound)
            (All-right (λ j. cmp j ≢ Ordering.eq) (rows l) (k ∷ rows r) new).1
            (omega (arith, short, max_right (depth l) (depth r))))
