-- ===== src/Rbt/Lower.antt =====
-- A turn of the loop of `xdb_rb_delete_fixup`, where a black node is missing on the ways down through `x`.
use cross_db.Base.{
  ℕ, suc, ◌≤◌, ◌≡◌, ◌≢◌, refl, sym, ap, ◌∙◌, Bool, true, false, if◌then◌else◌, List, [], ◌∷◌, arith,
  subst, length,
}
use cross_db.Rbt.{Rbt, Side, left, right, redden}
use cross_db.Rbt.Remove.{case4}
use cross_db.Rbt.Tree.{Tree, tip, bin, rows, mk, Rep, Frame, plug, open_node}
use cross_db.Rbt.Shape.{Holds, rows-turn, rows-mk, rows-plug}
use cross_db.Rbt.Sound.{red_top, Sound, UnderBlack, SoundPath, Sound-red, Sound-black, red_top-mk}
use cross_db.Rbt.Ended.{whole, plug-Sound}
use cross_db.Rbt.Delete.{Kept, KeptAt, case2_lem, case4_lem}

-- Its ways down have `n` black nodes, or one more once its red top is black.
abbrev pub Short : Tree → ℕ → Type 0
Short tip n = n ≡ 0
Short (bin true l k r) n = Sound (bin false l k r) (suc n)
Short (bin false l k r) n = Sound (bin false l k r) n

-- Where a path is left to go up, NULL knows its parent.
abbrev pub Noted : List Frame → ℕ → ℕ → ℕ → Type 0
Noted [] x q p = Unit
Noted (f ∷ fs) x q p = x ≡ 0 → q ≡ p

-- The turns left.
abbrev pub cost : Tree → List Frame → ℕ
cost u fs = if red_top u then 0 else length fs

-- The loop stands at `x`, with a path for one more black node.
abbrev pub Lacks : Rbt → ℕ → ℕ → ℕ → Tree → ℕ → List Frame → Type 0
Lacks t q x p u n fs = Kept t q x p u fs × Noted fs x q p × Short u n × SoundPath fs (suc n)

-- The loop stands at `x` with the same rows in order, and has at most `m` turns to go.
abbrev pub Lowered : Rbt → ℕ → List ℕ → ℕ → Type 0
Lowered t x xs m =
    (q : ℕ) × (p : ℕ) × (u : Tree) × (n : ℕ) × (fs : List Frame) × Lacks t q x p u n fs
    × (rows (plug fs u) ≡ xs)
    × (cost u fs ≤ m)

-- The path above a node with the colour `f`, for a tree with `n` black nodes on the ways down.
abbrev pub PathFor : Bool → ℕ → List Frame → Type 0
PathFor true n gs = UnderBlack gs × SoundPath gs (suc n)
PathFor false n gs = SoundPath gs (suc (suc n))

-- What `x` finds of its parent.
pub noted_parent :
    (t : Rbt) (q x p : ℕ) (u : Tree)
    → Rep t.nodes p x u
    → (t.nodes 0).rb_parent ≡ q
    → (x ≡ 0 → q ≡ p)
    → (t.nodes x).rb_parent ≡ p
noted_parent t q x p tip rep zero_up at0 = ap (λ v. (t.nodes v).rb_parent) rep ∙ zero_up ∙ at0 rep
noted_parent t q x p (bin c l k r) rep zero_up at0 = ap (λ v. (t.nodes v).rb_parent) rep.0 ∙ rep.2

pub Short-black : (u : Tree) (n : ℕ) → red_top u ≡ false → Sound u n → Short u n
Short-black tip n e s = s
Short-black (bin false l k r) n e s = s
Short-black (bin true l k r) n e s = cc

pub Sound-Short : (u : Tree) (n : ℕ) → red_top u ≡ false → Short u n → Sound u n
Sound-Short tip n e s = s
Sound-Short (bin false l k r) n e s = s
Sound-Short (bin true l k r) n e s = cc

Short-red : (s : Side) (a b : Tree) (k n : ℕ) → Sound a n → Sound b n → Short (mk s true a k b) n
Short-red left a b k n sa sb = (sa, sb)
Short-red right a b k n sa sb = (sb, sa)

Noted-nonzero : (fs : List Frame) (x q p : ℕ) → x ≢ 0 → Noted fs x q p
Noted-nonzero [] x q p n = tt
Noted-nonzero (f ∷ fs) x q p n = λ e. absurd (n e)

-- The node above, of two trees with `n` black nodes on the ways down.
joined :
    (s : Side) (f : Bool) (a b : Tree) (k n : ℕ) (gs : List Frame)
    → Sound a n
    → Sound b n
    → PathFor f n gs
    → (m : ℕ) × Short (mk s f a k b) m
      × SoundPath gs (suc m)
      × (cost (mk s f a k b) gs ≤ (if f then 0 else length gs))
joined s true a b k n gs sa sb path =
    (n, Short-red s a b k n sa sb, path.1, rw (red_top-mk s true a k b) (omega arith))
joined s false a b k n gs sa sb path = (
  suc n,
  Short-black (mk s false a k b) (suc n) (red_top-mk s false a k b) (Sound-black s a b k n sa sb),
  path,
  rw (red_top-mk s false a k b) (omega arith),
)

module _ (s : Side) (t : Rbt) (q x xp w n : ℕ) (f : Bool) (u : Tree) (gs : List Frame) where
  -- Case 2.
  pub case2-Lowered :
      (c d : Tree)
      → KeptAt t q xp (mk s f u xp (mk s false c w d)) gs
      → red_top u ≡ false
      → Sound u n
      → red_top c ≡ false
      → red_top d ≡ false
      → Sound c n
      → Sound d n
      → PathFor f n gs
      → Lowered
          (record t { nodes = redden t.nodes w })
          xp
          (rows (plug gs (mk s f u xp (mk s false c w d))))
          (if f then 0 else length gs)
  case2-Lowered c d kept ru su rc rd sc sd path =
      let t' : Rbt = record t { nodes = redden t.nodes w } in
      let v = mk s f u xp (mk s true c w d) in
      let (x', p', (holds, null, par)) = case2_lem s t q xp w gs f u c d kept in
      let (m, short, sound, fewer) =
        joined s f u (mk s true c w d) xp n gs su (Sound-red s c d w n rc rd sc sd) path in
      let (x_eq, nz, k_par, k_col, near, far) =
        open_node t'.nodes p' x' s f u xp (mk s true c w d) holds.0 in
      (
        q,
        p',
        v,
        m,
        gs,
        (
          (subst (λ y. Holds t' y p' v gs) x_eq holds, null, par),
          Noted-nonzero gs xp q p' nz,
          short,
          sound,
        ),
        rows-plug gs v (mk s f u xp (mk s false c w d)) (
            rows-mk s f f u u xp (mk s true c w d) (mk s false c w d) refl
              (rows-mk s true false c c w d d refl refl)),
        fewer,
      )

  -- Case 4: the loop is sent to the root.
  pub case4-Lowered :
      (c d1 d2 : Tree) (k : ℕ)
      → KeptAt t q xp (mk s f u xp (mk s false c w (mk s true d1 k d2))) gs
      → Sound u n
      → Sound c n
      → Sound d1 n
      → Sound d2 n
      → PathFor f n gs
      → let t' = case4 s t xp w k in
        Lowered t' t'.rb_root (rows (plug gs (mk s f u xp (mk s false c w (mk s true d1 k d2))))) 0
  case4-Lowered c d1 d2 k kept su sc s1 s2 path =
      let t' = case4 s t xp w k in
      let near = mk s false u xp c in
      let far = mk s false d1 k d2 in
      let v = mk s f near w far in
      let (x', p', (holds, null, par)) = case4_lem s t q xp w k gs f u c d1 d2 kept in
      let (m, sound, black) =
        top_sound f near far (Sound-black s u c xp n su sc) (Sound-black s d1 d2 k n s1 s2)
          (red_top-mk s false u xp c) (red_top-mk s false d1 k d2) path in
      (
        q,
        0,
        plug gs v,
        m,
        [],
        ((whole t' x' p' v gs holds, null, par), tt, Short-black (plug gs v) m black sound, tt),
        rows-plug gs v (mk s f u xp (mk s false c w (mk s true d1 k d2))) (
            rows-mk s f f near near w far (mk s true d1 k d2) refl
              (rows-mk s false true d1 d1 k d2 d2 refl refl)
            ∙ sym (rows-turn s f false false f u c (mk s true d1 k d2) xp w)),
        rw black (omega arith),
      )
    where
      top_sound :
          (g : Bool) (a b : Tree)
          → Sound a (suc n)
          → Sound b (suc n)
          → red_top a ≡ false
          → red_top b ≡ false
          → PathFor g n gs
          → (m : ℕ) × Sound (plug gs (mk s g a w b)) m × (red_top (plug gs (mk s g a w b)) ≡ false)
      top_sound true a b sa sb ra rb path =
          plug-Sound gs (mk s true a w b) (suc n) path.1 (Sound-red s a b w (suc n) ra rb sa sb)
            (λ e. path.0)
      top_sound false a b sa sb ra rb path =
          plug-Sound gs (mk s false a w b) (suc (suc n)) path (Sound-black s a b w (suc n) sa sb)
            (λ e. absurd (cc (e, red_top-mk s false a w b)))
