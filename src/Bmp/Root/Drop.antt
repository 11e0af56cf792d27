-- ===== src/Bmp/Root/Drop.antt =====
-- `xdb_bmp_clr` below `bmp1`: what becomes of a node.
use mathlib.Core.Bool.{false≢true}
use mathlib.Core.Path.{ap₂}
use cross_db.Base.{
  ℕ, ◌%◌, ◌^◌, ◌<◌, ◌≡◌, sym, ◌∙◌, true, false, ◌==◌, ◌&&◌, if◌then◌else◌, arith, Option, none,
  some, Bool-cases, Option-cases, inl, inr, update,
}
use cross_db.Bmp.Word.{bit, clr_bit, bit-clr_bit, eq-zero-bit}
use cross_db.Bmp.Leaf.{Leaf}
use cross_db.Bmp.Root.{Node, id2, id3, put_leaf, leaf_clr, node_drop, node_clr}
use cross_db.Bmp.Root.Valid.{leaf_at, node_member, node_at, LeafOk, LeafPtr, NodeOk}
use cross_db.Bmp.Root.Leaves.{leaf_clr-LeafOk, leaf_at-clr}
use cross_db.Bmp.Root.Nodes.{leaf_behind, marked_less, update₂-eq, at_update₂}

-- Good, if anything is left.
abbrev pub Remains : Option Node → Type 0
Remains none = Unit
Remains (some n) = NodeOk n

-- The node after the leaf of `i` is freed.
module _ (n : Node) (i : ℕ) (v : NodeOk n) where
  abbrev freed : ℕ → Node
  freed x = record (put_leaf n i none) {
    bmp3 = update n.bmp3 (id2 i) (clr_bit (n.bmp3 (id2 i)) (id3 i));
    bmp2 = x;
  }

  freed-NodeOk :
      (x : ℕ)
      → ((a c : ℕ) → a < 64 → bit x a ≡ false → bit ((freed x).bmp3 a) c ≡ false)
      → NodeOk (freed x)
  freed-NodeOk x cov = record {
    covers2 = cov;
    leaf_ptr = λ a c e. elim (Bool-cases ((a == id2 i) && (c == id3 i))) [
      | inl t ↦ absurd (false≢true (sym (marked_less n.bmp3 (id2 i) (id3 i) a c ∙ rw t) ∙ e))
      | inr t ↦
          rw (update₂-eq, t)
            (v.leaf_ptr a c (sym (marked_less n.bmp3 (id2 i) (id3 i) a c ∙ rw t) ∙ e))
    ];
  }

  node_drop-Remains : Remains (node_drop n i)
  unfolding node_drop
  node_drop-Remains = elim (Bool-cases (clr_bit (n.bmp3 (id2 i)) (id3 i) == 0)) [
    | inl e ↦ elim (Bool-cases (clr_bit n.bmp2 (id2 i) == 0)) [
      | inl e' ↦ rw (e, e') tt
      | inr e' ↦
          rw (e, e')
            (freed-NodeOk (clr_bit n.bmp2 (id2 i)) λ a c h z. ground (
              arith,
              bit-clr_bit (id2 i) a n.bmp2,
              v.covers2 a c h,
              bit-clr_bit (id3 i) c (n.bmp3 (id2 i)),
              eq-zero-bit (clr_bit (n.bmp3 (id2 i)) (id3 i)) c,
            ))
    ]
    | inr e ↦ rw e (
        freed-NodeOk n.bmp2
          λ a c h z. ground (arith, marked_less n.bmp3 (id2 i) (id3 i) a c, v.covers2 a c h))
  ]

  node_at-drop :
      (j : ℕ)
      → ((id2 j == id2 i) && (id3 j == id3 i)) ≡ false
      → node_at (node_drop n i) j ≡ node_member n j
  unfolding node_drop
  node_at-drop j ne = elim (Bool-cases (clr_bit (n.bmp3 (id2 i)) (id3 i) == 0)) [
    | inl e ↦ elim (Bool-cases (clr_bit n.bmp2 (id2 i) == 0)) [
      | inl e' ↦
          rw (e, e')
            (ground (
              arith,
              bit-clr_bit (id2 i) (id2 j) n.bmp2,
              eq-zero-bit (clr_bit n.bmp2 (id2 i)) (id2 j),
              bit-clr_bit (id3 i) (id3 j) (n.bmp3 (id2 i)),
              eq-zero-bit (clr_bit (n.bmp3 (id2 i)) (id3 i)) (id3 j),
              v.covers2 (id2 j) (id3 j),
            ))
      | inr e' ↦ rw (e, e', update₂-eq, ne, marked_less n.bmp3 (id2 i) (id3 i) (id2 j) (id3 j), ne)
    ]
    | inr e ↦ rw (e, update₂-eq, ne, marked_less n.bmp3 (id2 i) (id3 i) (id2 j) (id3 j), ne)
  ]

  node_at-drop_self :
      (j : ℕ) → ((id2 j == id2 i) && (id3 j == id3 i)) ≡ true → node_at (node_drop n i) j ≡ false
  unfolding node_drop
  node_at-drop_self j t = elim (Bool-cases (clr_bit (n.bmp3 (id2 i)) (id3 i) == 0)) [
    | inl e ↦ elim (Bool-cases (clr_bit n.bmp2 (id2 i) == 0)) [
      | inl e' ↦ rw (e, e')
      | inr e' ↦ rw (e, e', update₂-eq, t) (ground arith)
    ]
    | inr e ↦ rw (e, update₂-eq, t) (ground arith)
  ]

-- What `xdb_bmp_clr` does from the node on: the node loses the bit, and is freed with its last.
pub record NodeClr (n : Node) (i : ℕ) : Type 0 where
  pub result : Option Node
  pub runs : node_clr n i ≡ some result
  pub good : Remains result
  pub has :
      (j : ℕ) → node_at result j ≡ (if j % 2 ^ 24 == i % 2 ^ 24 then false else node_member n j)

-- The node with the leaf `l'` where `l` was.
module _ (n : Node) (i : ℕ) (v : NodeOk n) (l' : Leaf) (k : LeafOk l') where
  kept-NodeOk : NodeOk (put_leaf n i (some l'))
  kept-NodeOk = record {
    covers2 = v.covers2;
    leaf_ptr = λ a c e.
        at_update₂ LeafPtr n.leaves (id2 i) (id3 i) (some l') a c k (λ ne. v.leaf_ptr a c e);
  }

-- Two bits of one leaf, and two bits of two.
same_leaf :
    (n : Node) (i j : ℕ) (l : Leaf)
    → n.leaves (id2 i) (id3 i) ≡ some l
    → ((id2 j == id2 i) && (id3 j == id3 i)) ≡ true
    → leaf_at (n.leaves (id2 j) (id3 j)) j ≡ leaf_at (some l) j
same_leaf n i j l e t =
    let e2 : id2 j ≡ id2 i = ground arith in
    let e3 : id3 j ≡ id3 i = ground arith in ground (arith, e, ap₂ n.leaves e2 e3)

at_same :
    (n : Node) (i j : ℕ)
    → ((id2 j == id2 i) && (id3 j == id3 i)) ≡ true
    → bit (n.bmp3 (id2 j)) (id3 j) ≡ bit (n.bmp3 (id2 i)) (id3 i)
at_same n i j t =
    let e2 : id2 j ≡ id2 i = ground arith in
    let e3 : id3 j ≡ id3 i = ground arith in ap₂ (λ a c. bit (n.bmp3 a) c) e2 e3

absent :
    (n : Node) (i j : ℕ)
    → bit (n.bmp3 (id2 i)) (id3 i) ≡ false
    → node_member n j ≡ (if j % 2 ^ 24 == i % 2 ^ 24 then false else node_member n j)
absent n i j h = elim (Bool-cases ((id2 j == id2 i) && (id3 j == id3 i))) [
  | inl t ↦ rw (at_same n i j t, h) (ground arith)
  | inr t ↦ ground arith
]

pub node_clr_lem : (n : Node) (i : ℕ) → NodeOk n → NodeClr n i
unfolding node_clr
node_clr_lem n i v = elim (Bool-cases (bit (n.bmp3 (id2 i)) (id3 i))) [
  | inr h ↦ record { result = some n; runs = rw h; good = v; has = λ j. absent n i j h }
  | inl h ↦
      let (l, e, k) = leaf_behind n (id2 i) (id3 i) v h in
      elim (Option-cases (leaf_clr l i)) [
        | inl z ↦ record {
          result = node_drop n i;
          runs = rw (h, e, z);
          good = node_drop-Remains n i v;
          has = λ j. elim (Bool-cases ((id2 j == id2 i) && (id3 j == id3 i))) [
            | inl t ↦
                rw (node_at-drop_self n i v j t)
                  (ground (arith, leaf_at-clr l i j k, same_leaf n i j l e t))
            | inr t ↦ rw (node_at-drop n i v j t) (ground arith)
          ];
        }
        | inr (l', z) ↦ record {
          result = some (put_leaf n i (some l'));
          runs = rw (h, e, z);
          good = kept-NodeOk n i v l' (leaf_clr-LeafOk l l' i k z);
          has = λ j. rw update₂-eq (elim (Bool-cases ((id2 j == id2 i) && (id3 j == id3 i))) [
            | inl t ↦
                rw t (ground (arith, leaf_at-clr l i j k, same_leaf n i j l e t, at_same n i j t))
            | inr t ↦ rw t (ground arith)
          ]);
        }
      ]
]
