-- ===== src/Bmp/Root/Leaves.antt =====
-- What the operations of `xdb_bmp_t` do to one leaf.
use cross_db.Base.{ℕ, ◌%◌, ◌≡◌, Bool, true, false, ◌==◌, if◌then◌else◌, arith, some}
use cross_db.Bmp.Word.{clr_bit, bit-set_bit, bit-clr_bit, bit-zero, eq-zero-bit}
use cross_db.Bmp.Leaf.{Leaf, id4, id5}
use cross_db.Bmp.Root.{clear_leaf, leaf_set, leaf_clr}
use cross_db.Bmp.Root.Valid.{leaf_at, LeafOk}

pub clear_leaf-LeafOk : (m : Bool) (l : Leaf) → LeafOk (clear_leaf m l)
unfolding clear_leaf
clear_leaf-LeafOk m l = record { covers4 = λ a c h e. bit-zero c }

pub leaf_at-clear : (m : Bool) (l : Leaf) (j : ℕ) → leaf_at (some (clear_leaf m l)) j ≡ false
unfolding clear_leaf
leaf_at-clear m l j = bit-zero (id5 j)

pub leaf_set-LeafOk : (l : Leaf) (i : ℕ) → LeafOk l → LeafOk (leaf_set l i)
unfolding leaf_set
leaf_set-LeafOk l i v = record {
  covers4 = λ a c h e. ground (arith, bit-set_bit (id4 i) a l.bmp4, v.covers4 a c h);
}

pub leaf_at-set :
    (l : Leaf) (i j : ℕ)
    → leaf_at (some (leaf_set l i)) j ≡ (if j % 4096 == i % 4096 then true else leaf_at (some l) j)
unfolding leaf_set
leaf_at-set l i j = ground (arith, bit-set_bit (id5 i) (id5 j) (l.bmp5 (id4 i)))

-- What becomes of the leaf is good, if anything is left.
pub leaf_clr-LeafOk : (l l' : Leaf) (i : ℕ) → LeafOk l → leaf_clr l i ≡ some l' → LeafOk l'
unfolding leaf_clr
leaf_clr-LeafOk l l' i v e = record {
  covers4 = λ a c h z. ground (
    arith,
    bit-clr_bit (id4 i) a l.bmp4,
    bit-clr_bit (id5 i) c (l.bmp5 (id4 i)),
    v.covers4 a c h,
    eq-zero-bit (clr_bit (l.bmp5 (id4 i)) (id5 i)) c,
  );
}

pub leaf_at-clr :
    (l : Leaf) (i j : ℕ)
    → LeafOk l
    → leaf_at (leaf_clr l i) j ≡ (if j % 4096 == i % 4096 then false else leaf_at (some l) j)
unfolding leaf_clr
leaf_at-clr l i j v = ground (
  arith,
  bit-clr_bit (id5 i) (id5 j) (l.bmp5 (id4 i)),
  bit-clr_bit (id4 i) (id4 j) l.bmp4,
  eq-zero-bit (clr_bit (l.bmp5 (id4 i)) (id5 i)) (id5 j),
  eq-zero-bit (clr_bit l.bmp4 (id4 i)) (id4 j),
  v.covers4 (id4 j) (id5 j),
)
