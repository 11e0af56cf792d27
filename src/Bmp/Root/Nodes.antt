-- ===== src/Bmp/Root/Nodes.antt =====
-- What the operations of `xdb_bmp_t` do to one node.
use cross_db.Base.{
  ℕ, ◌+◌, ◌%◌, ◌^◌, ◌≡◌, refl, sym, ◌∙◌, Bool, true, false, ◌==◌, ltb, ◌&&◌, if◌then◌else◌, arith,
  Option, none, some, ==→eq, Bool-cases, inl, inr, update,
}
use cross_db.Bmp.Word.{bit, set_bit, clr_bit, bit-set_bit, bit-clr_bit, bit-zero}
use cross_db.Bmp.Leaf.{Leaf}
use cross_db.Bmp.Root.{
  Node, Bmp, ok, id2, id3, put_node, put_leaf, update₂, clear_leaf, lv2_allocate, leaf_set,
  node_set, node_get, clear_node,
}
use cross_db.Bmp.Root.Valid.{leaf_at, node_member, LeafOk, LeafPtr, NodeOk}
use cross_db.Bmp.Root.Leaves.{clear_leaf-LeafOk, leaf_at-clear, leaf_set-LeafOk, leaf_at-set}

pub update₂-eq :
    {A : Type 0} (f : ℕ → ℕ → A) (x y : ℕ) (p : A) (a c : ℕ)
    → update₂ f x y p a c ≡ (if (a == x) && (c == y) then p else f a c)
update₂-eq f x y p a c = elim (Bool-cases (a == x)) [ inl e ↦ rw (e, ==→eq a x e) | inr e ↦ rw e ]

-- A property of the entries after a write, from that of what is written and of the others.
pub at_update₂ :
    {A : Type 0} (P : A → Type 0) (f : ℕ → ℕ → A) (x y : ℕ) (p : A) (a c : ℕ)
    → P p
    → (((a == x) && (c == y)) ≡ false → P (f a c))
    → P (update₂ f x y p a c)
at_update₂ P f x y p a c new old =
    rw (update₂-eq f x y p a c)
      (elim (Bool-cases ((a == x) && (c == y))) [ inl e ↦ rw e new | inr e ↦ rw e (old e) ])

pub clear_node-NodeOk : (m : Bool) (n : Node) → NodeOk (clear_node m n)
unfolding clear_node
clear_node-NodeOk m n = record {
  covers2 = λ a c h e. bit-zero c;
  leaf_ptr = λ a c e. ground (arith, bit-zero c);
}

pub node_member-clear : (m : Bool) (n : Node) (j : ℕ) → node_member (clear_node m n) j ≡ false
unfolding clear_node
node_member-clear m n j = ground (arith, bit-zero (id3 j))

-- The pointer behind a set bit of `bmp3`.
pub leaf_behind :
    (n : Node) (a c : ℕ)
    → NodeOk n
    → bit (n.bmp3 a) c ≡ true
    → (l : Leaf) × (n.leaves a c ≡ some l) × LeafOk l
leaf_behind n a c v h = go (n.leaves a c) refl (v.leaf_ptr a c h)
  where
    go :
        (p : Option Leaf)
        → n.leaves a c ≡ p
        → LeafPtr p
        → (l : Leaf) × (n.leaves a c ≡ some l) × LeafOk l
    go none e k = absurd k
    go (some l) e k = (l, e, k)

pub node_get_lem : (n : Node) (i : ℕ) → NodeOk n → node_get n i ≡ some (node_member n i)
unfolding node_get
node_get_lem n i v = elim (Bool-cases (bit (n.bmp3 (id2 i)) (id3 i))) [
  | inl h ↦ let (l, e, _) = leaf_behind n (id2 i) (id3 i) v h in rw (h, e)
  | inr h ↦ rw h
]

-- The node after `xdb_bmp_set`: `w3` has the bit, and the leaf there is `l` with the bit set.
module _ (n : Node) (i : ℕ) (w3 : ℕ → ℕ) (l : Leaf) where
  abbrev pub node_with : Node
  node_with =
      record (put_leaf (record n { bmp2 = set_bit n.bmp2 (id2 i) }) i (some (leaf_set l i))) {
        bmp3 = w3;
      }

  module _ (v : NodeOk n) (k : LeafOk l)
      (marked : (a c : ℕ)
        → bit (w3 a) c ≡ (if (a == id2 i) && (c == id3 i) then true else bit (n.bmp3 a) c)) where
    node_with-NodeOk : NodeOk node_with
    node_with-NodeOk = record {
      covers2 =
          λ a c h e. ground (arith, marked a c, bit-set_bit (id2 i) a n.bmp2, v.covers2 a c h);
      leaf_ptr = λ a c e.
          at_update₂ LeafPtr n.leaves (id2 i) (id3 i) (some (leaf_set l i)) a c
            (leaf_set-LeafOk l i k) (λ ne. v.leaf_ptr a c (sym (marked a c ∙ rw ne) ∙ e));
    }

    node_member-with :
        (at_i : (j : ℕ)
          → leaf_at (some l) j ≡ (
              if bit (n.bmp3 (id2 i)) (id3 i) then leaf_at (n.leaves (id2 i) (id3 i)) j else false))
        (j : ℕ)
        → node_member node_with j ≡ (if j % 2 ^ 24 == i % 2 ^ 24 then true else node_member n j)
    node_member-with at_i j =
        rw update₂-eq (ground (arith, marked (id2 j) (id3 j), leaf_at-set l i j, at_i j))

-- What `xdb_bmp_set` does from the node on, when malloc does not fail: the node gets the bit.
pub record NodeSet (b : Bmp) (n : Node) (i : ℕ) (m : Leaf) : Type 0 where
  pub result : Node
  pub al : ℕ
  pub runs :
      node_set b n i (some m) ≡ some (put_node (record b { lv2_alloc = al }) i (some result), ok)
  pub good : NodeOk result
  pub has :
      (j : ℕ) → node_member result j ≡ (if j % 2 ^ 24 == i % 2 ^ 24 then true else node_member n j)

-- The new leaf of `xdb_bmp_lv2alloc`.
pub fresh_leaf :
    (b : Bmp) (m : Leaf)
    → (l : Leaf) × (al : ℕ) × ((lv2_allocate b (some m)).0 ≡ some l)
      × ((lv2_allocate b (some m)).1 ≡ record b { lv2_alloc = al })
      × LeafOk l
      × ((j : ℕ) → leaf_at (some l) j ≡ false)
unfolding lv2_allocate
fresh_leaf b m = elim (Bool-cases (ltb b.lv2_alloc 128)) [
  | inl e ↦ (
    clear_leaf false (b.lv2_bmp b.lv2_alloc),
    b.lv2_alloc + 1,
    rw e,
    rw e,
    clear_leaf-LeafOk false _,
    leaf_at-clear false (b.lv2_bmp b.lv2_alloc),
  )
  | inr e ↦
      (clear_leaf true m, b.lv2_alloc, rw e, rw e, clear_leaf-LeafOk true _, leaf_at-clear true m)
]

pub marked_same :
    (w : ℕ → ℕ) (x y : ℕ)
    → bit (w x) y ≡ true
    → (a c : ℕ) → bit (w a) c ≡ (if (a == x) && (c == y) then true else bit (w a) c)
marked_same w x y h a c = elim (Bool-cases (a == x)) [
  | inl e ↦ elim (Bool-cases (c == y)) [
    | inl e' ↦ rw (e, e', ==→eq a x e, ==→eq c y e') h
    | inr e' ↦ rw (e, e')
  ]
  | inr e ↦ rw e
]

pub marked_more :
    (w : ℕ → ℕ) (x y a c : ℕ)
    → bit (update w x (set_bit (w x) y) a) c ≡ (if (a == x) && (c == y) then true else bit (w a) c)
marked_more w x y a c = elim (Bool-cases (a == x)) [
  | inl e ↦ rw (e, ==→eq a x e, bit-set_bit y c (w x))
  | inr e ↦ rw e
]

pub marked_less :
    (w : ℕ → ℕ) (x y a c : ℕ)
    → bit (update w x (clr_bit (w x) y) a) c ≡ (if (a == x) && (c == y) then false else bit (w a) c)
marked_less w x y a c = elim (Bool-cases (a == x)) [
  | inl e ↦ rw (e, ==→eq a x e, bit-clr_bit y c (w x))
  | inr e ↦ rw e
]

pub node_set_lem : (b : Bmp) (n : Node) (i : ℕ) (m : Leaf) → NodeOk n → NodeSet b n i m
unfolding node_set
node_set_lem b n i m v = elim (Bool-cases (bit (n.bmp3 (id2 i)) (id3 i))) [
  | inl h ↦
      let (l, e, k) = leaf_behind n (id2 i) (id3 i) v h in
      let marked = marked_same n.bmp3 (id2 i) (id3 i) h in
      record {
        result = node_with n i n.bmp3 l;
        al = b.lv2_alloc;
        runs = rw (h, e);
        good = node_with-NodeOk n i n.bmp3 l v k marked;
        has = node_member-with n i n.bmp3 l v k marked (λ j. rw (h, e));
      }
  | inr h ↦
      let (l, al, e, e', k, none_in) = fresh_leaf b m in
      let w3 = update n.bmp3 (id2 i) (set_bit (n.bmp3 (id2 i)) (id3 i)) in
      let marked = marked_more n.bmp3 (id2 i) (id3 i) in
      record {
        result = node_with n i w3 l;
        al = al;
        runs = rw (h, e, e');
        good = node_with-NodeOk n i w3 l v k marked;
        has = node_member-with n i w3 l v k marked (λ j. rw h (none_in j));
      }
]
