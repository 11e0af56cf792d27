-- ===== src/Bmp/Root/Valid.antt =====
-- The invariant of `xdb_bmp_t` and the set of bits that it holds.
use cross_db.Base.{ℕ, ◌<◌, ◌≡◌, Bool, true, false, ◌&&◌, Option, none, some}
use cross_db.Bmp.Word.{bit}
use cross_db.Bmp.Leaf.{Leaf, id4, id5}
use cross_db.Bmp.Root.{Node, Bmp, id0, id1, id2, id3}

abbrev pub leaf_at : Option Leaf → ℕ → Bool
leaf_at none i = false
leaf_at (some l) i = bit (l.bmp5 (id4 i)) (id5 i)

-- Whether the bit `i` is set below the node.
abbrev pub node_member : Node → ℕ → Bool
node_member n i = bit (n.bmp3 (id2 i)) (id3 i) && leaf_at (n.leaves (id2 i) (id3 i)) i

abbrev pub node_at : Option Node → ℕ → Bool
node_at none i = false
node_at (some n) i = node_member n i

-- Whether the bit `i` is set.
abbrev pub member : Bmp → ℕ → Bool
member b i = bit (b.bmp1 (id0 i)) (id1 i) && node_at (b.nodes (id0 i) (id1 i)) i

-- `bmp4` marks every word of `bmp5` that has a bit.
pub record LeafOk (l : Leaf) : Type 0 where
  pub covers4 : (a c : ℕ) → a < 64 → bit l.bmp4 a ≡ false → bit (l.bmp5 a) c ≡ false

abbrev pub LeafPtr : Option Leaf → Type 0
LeafPtr none = ⊥
LeafPtr (some l) = LeafOk l

-- `bmp2` marks every word of `bmp3` that has a bit, and a bit of `bmp3` has a good pointer.
pub record NodeOk (n : Node) : Type 0 where
  pub covers2 : (a c : ℕ) → a < 64 → bit n.bmp2 a ≡ false → bit (n.bmp3 a) c ≡ false
  pub leaf_ptr : (a c : ℕ) → bit (n.bmp3 a) c ≡ true → LeafPtr (n.leaves a c)

abbrev pub NodePtr : Option Node → Type 0
NodePtr none = ⊥
NodePtr (some n) = NodeOk n

-- A bit of `bmp1` has a good pointer.
pub record IsValid (b : Bmp) : Type 0 where
  pub node_ptr : (a c : ℕ) → bit (b.bmp1 a) c ≡ true → NodePtr (b.nodes a c)
