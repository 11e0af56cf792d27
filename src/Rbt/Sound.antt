-- ===== src/Rbt/Sound.antt =====
-- The colours of a red-black tree.
use cross_db.Base.{ℕ, zero, suc, ◌≡◌, refl, Bool, true, false, List, [], ◌∷◌}
use cross_db.Rbt.{Side, left, right}
use cross_db.Rbt.Tree.{Tree, tip, bin, mk, Frame}

abbrev pub red_top : Tree → Bool
red_top tip = false
red_top (bin c l k r) = c

-- No red node has a red child, and on each way down there are `n` black nodes.
abbrev pub Sound : Tree → ℕ → Type 0
Sound tip n = n ≡ 0
Sound (bin true l k r) n = (red_top l ≡ false) × (red_top r ≡ false) × Sound l n × Sound r n
Sound (bin false l k r) zero = ⊥
Sound (bin false l k r) (suc n) = Sound l n × Sound r n

-- The nearest node above is there and is black.
abbrev pub UnderBlack : List Frame → Type 0
UnderBlack [] = ⊥
UnderBlack (f ∷ fs) = f.red ≡ false

-- The path is sound around a tree with `n` black nodes on each way down and a black top.
abbrev pub Fits : Bool → Tree → ℕ → List Frame → (ℕ → Type 0) → Type 0
Fits true b n fs rest = (red_top b ≡ false) × Sound b n × UnderBlack fs × rest n
Fits false b n fs rest = Sound b n × rest (suc n)

abbrev pub SoundPath : List Frame → ℕ → Type 0
SoundPath [] n = Unit
SoundPath (f ∷ fs) n = Fits f.red f.sib n fs (λ m. SoundPath fs m)

pub Sound-red :
    (s : Side) (a b : Tree) (k n : ℕ)
    → red_top a ≡ false
    → red_top b ≡ false
    → Sound a n
    → Sound b n
    → Sound (mk s true a k b) n
Sound-red left a b k n ra rb sa sb = (ra, rb, sa, sb)
Sound-red right a b k n ra rb sa sb = (rb, ra, sb, sa)

pub Sound-black :
    (s : Side) (a b : Tree) (k n : ℕ) → Sound a n → Sound b n → Sound (mk s false a k b) (suc n)
Sound-black left a b k n sa sb = (sa, sb)
Sound-black right a b k n sa sb = (sb, sa)

pub red_top-mk : (s : Side) (c : Bool) (a : Tree) (k : ℕ) (b : Tree) → red_top (mk s c a k b) ≡ c
red_top-mk left c a k b = refl
red_top-mk right c a k b = refl
