-- ===== src/Bmp/Root.antt =====
-- `xdb_bmp_t` of lib/xdb_bmp.c: a bitmap over row ids below 2 ^ 31, in three levels of nodes.
-- A pointer is an option, and `none` as a result is a read through NULL. Each node and leaf has one
-- owner, so a write through a pointer is a write into the owner. What an allocation returns (the
-- memory as it was found, `none` for NULL) is an argument, and freed memory is dropped.
pub mod Valid
pub mod Leaves
pub mod Nodes
pub mod Drop
pub mod Laws
pub mod Clear
pub mod Iterate
pub mod Failure
mod Tests
use mathlib.Core.Option
use cross_db.Base.{
  ℕ, ◌+◌, ◌*◌, ◌/◌, ◌%◌, ◌^◌, Bool, true, false, not, ◌==◌, ltb, if◌then◌else◌, List, [], ◌∷◌, ◌++◌,
  update, Option, none, some,
}
use cross_db.Bmp.Word.{bit, set_bit, clr_bit}
use cross_db.Bmp.Scan.{word_ids}
use cross_db.Bmp.Leaf
use cross_db.Bmp.Leaf.{Leaf, id4, id5}

-- `xdb_lv1bmp_t`
pub record Node : Type 0 where
  pub bmp2 : ℕ
  pub bmp3 : ℕ → ℕ
  pub leaves : ℕ → ℕ → Option Leaf
  pub b_malloc : Bool

-- `xdb_bmp_t`; `lv1_bmp` and `lv2_bmp` are the memory of the slots not yet handed out.
pub record Bmp : Type 0 where
  pub bmp1 : ℕ → ℕ
  pub nodes : ℕ → ℕ → Option Node
  pub lv1_bmp : ℕ → Node
  pub lv2_bmp : ℕ → Leaf
  pub lv1_alloc : ℕ
  pub lv2_alloc : ℕ

pub data Ret : Type 0 where
  ok e_memory : Ret

-- `bit>>30`, `(bit>>24)&0x3f`, `(bit>>18)&0x3f`, `(bit>>12)&0x3f`
abbrev pub id0 : ℕ → ℕ
id0 b = b / 2 ^ 30

abbrev pub id1 : ℕ → ℕ
id1 b = b / 2 ^ 24 % 64

abbrev pub id2 : ℕ → ℕ
id2 b = b / 2 ^ 18 % 64

abbrev pub id3 : ℕ → ℕ
id3 b = b / 2 ^ 12 % 64

abbrev pub update₂ {ℓ} : {A : Type ℓ} → (ℕ → ℕ → A) → ℕ → ℕ → A → ℕ → ℕ → A
update₂ f i j v = update f i (update (f i) j v)

-- `xdb_bmp_init`: the pointers keep what they held.
unfoldable pub init : Bmp → Bmp
init b = record b { bmp1 = λ _. 0; lv1_alloc = 0; lv2_alloc = 0 }

pub clear_node : Bool → Node → Node
clear_node malloced n = record n { b_malloc = malloced; bmp2 = 0; bmp3 = λ _. 0 }

pub clear_leaf : Bool → Leaf → Leaf
clear_leaf malloced l = record l { b_malloc = malloced; bmp4 = 0; bmp5 = λ _. 0 }

-- `xdb_bmp_lv1alloc`: the one static node, then malloc.
pub lv1_allocate : Bmp → Option Node → Option Node × Bmp
lv1_allocate b mem =
    if ltb b.lv1_alloc 1
    then (some (clear_node false (b.lv1_bmp b.lv1_alloc)), record b { lv1_alloc = b.lv1_alloc + 1 })
    else (Option.map (clear_node true) mem, b)

-- `xdb_bmp_lv2alloc`: the 128 static leaves, then malloc.
pub lv2_allocate : Bmp → Option Leaf → Option Leaf × Bmp
lv2_allocate b mem =
    if ltb b.lv2_alloc 128
    then (some (clear_leaf false (b.lv2_bmp b.lv2_alloc)), record b { lv2_alloc = b.lv2_alloc + 1 })
    else (Option.map (clear_leaf true) mem, b)

abbrev pub put_node : Bmp → ℕ → Option Node → Bmp
put_node b i p = record b { nodes = update₂ b.nodes (id0 i) (id1 i) p }

abbrev pub put_leaf : Node → ℕ → Option Leaf → Node
put_leaf n i p = record n { leaves = update₂ n.leaves (id2 i) (id3 i) p }

-- The last four lines of `xdb_bmp_set`.
pub leaf_set : Leaf → ℕ → Leaf
leaf_set l i = record l {
  bmp4 = set_bit l.bmp4 (id4 i);
  bmp5 = update l.bmp5 (id4 i) (set_bit (l.bmp5 (id4 i)) (id5 i));
}

-- `xdb_bmp_set` from `bmp2` on, at the node `n` of the bit. `mem2` is what malloc returns.
pub node_set : Bmp → Node → ℕ → Option Leaf → Option (Bmp × Ret)
unfolding lv2_allocate clear_leaf leaf_set
node_set b n i mem2 =
    let n1 = record n { bmp2 = set_bit n.bmp2 (id2 i) } in
    let (p, b') = lv2_allocate b mem2 in
    let n2 = record n1 { bmp3 = update n1.bmp3 (id2 i) (set_bit (n1.bmp3 (id2 i)) (id3 i)) } in
    if bit (n1.bmp3 (id2 i)) (id3 i)
    then Option.map (λ l. (put_node b i (some (put_leaf n1 i (some (leaf_set l i)))), ok))
        (n1.leaves (id2 i) (id3 i))
    else elim p [
      | none ↦ some (put_node b' i (some (put_leaf n2 i none)), e_memory)
      | some l ↦ some (put_node b' i (some (put_leaf n2 i (some (leaf_set l i)))), ok)
    ]

-- `bmp1` has two words, so the C has no meaning at a bit from 2 ^ 31 on.
abbrev in_range : ℕ → Bool
in_range i = ltb (id0 i) 2

-- `xdb_bmp_set` with a new node, which malloc may have failed to give.
pub set_new : Option Node → Bmp → ℕ → Option Leaf → Option (Bmp × Ret)
unfolding node_set
set_new p b' i mem2 =
    let b1 = record b' { bmp1 = update b'.bmp1 (id0 i) (set_bit (b'.bmp1 (id0 i)) (id1 i)) } in
    elim p [
      | none ↦ some (put_node b1 i none, e_memory)
      | some n ↦ node_set (put_node b1 i (some n)) n i mem2
    ]

-- `xdb_bmp_set`. A bit set in `bmp1` says that the pointer is good: it is not tested.
unfoldable pub set : Bmp → ℕ → Option Node → Option Leaf → Option (Bmp × Ret)
unfolding lv1_allocate clear_node node_set set_new Option.bind
set b i mem1 mem2 =
    let (p, b') = lv1_allocate b mem1 in
    if not (in_range i)
    then none
    else if bit (b.bmp1 (id0 i)) (id1 i)
    then Option.bind (b.nodes (id0 i) (id1 i)) (λ n. node_set b n i mem2)
    else set_new p b' i mem2

-- `xdb_bmp_clr` below `bmp5`: the leaf, or `none` when its last bit went and it is freed.
pub leaf_clr : Leaf → ℕ → Option Leaf
leaf_clr l i =
    let w = clr_bit (l.bmp5 (id4 i)) (id5 i) in
    let l' = record l { bmp5 = update l.bmp5 (id4 i) w } in
    let w4 = clr_bit l.bmp4 (id4 i) in
    if w == 0 then (if w4 == 0 then none else some (record l' { bmp4 = w4 })) else some l'

-- `xdb_bmp_clr` at a freed leaf: the node, or `none` when its last leaf went and it is freed.
pub node_drop : Node → ℕ → Option Node
node_drop n i =
    let w3 = clr_bit (n.bmp3 (id2 i)) (id3 i) in
    let n' = record (put_leaf n i none) { bmp3 = update n.bmp3 (id2 i) w3 } in
    let w2 = clr_bit n.bmp2 (id2 i) in
    if w3 == 0 then (if w2 == 0 then none else some (record n' { bmp2 = w2 })) else some n'

-- `xdb_bmp_clr` at the node of the bit: what becomes of the node.
pub node_clr : Node → ℕ → Option (Option Node)
unfolding leaf_clr node_drop
node_clr n i =
    if not (bit (n.bmp3 (id2 i)) (id3 i))
    then some (some n)
    else Option.map
        (λ l. elim (leaf_clr l i) [
          | none ↦ node_drop n i
          | some l' ↦ some (put_leaf n i (some l'))
        ])
        (n.leaves (id2 i) (id3 i))

-- `xdb_bmp_clr`
unfoldable pub clr : Bmp → ℕ → Option Bmp
unfolding node_clr Option.bind
clr b i =
    if not (in_range i)
    then none
    else if not (bit (b.bmp1 (id0 i)) (id1 i))
    then some b
    else Option.bind (b.nodes (id0 i) (id1 i)) λ n.
      Option.map
        (λ p. elim p [
          | none ↦ record (put_node b i none) {
            bmp1 = update b.bmp1 (id0 i) (clr_bit (b.bmp1 (id0 i)) (id1 i));
          }
          | some n' ↦ put_node b i (some n')
        ])
        (node_clr n i)

pub node_get : Node → ℕ → Option Bool
node_get n i =
    if not (bit (n.bmp3 (id2 i)) (id3 i))
    then some false
    else Option.map (λ l. bit (l.bmp5 (id4 i)) (id5 i)) (n.leaves (id2 i) (id3 i))

-- `xdb_bmp_get`
unfoldable pub get : Bmp → ℕ → Option Bool
unfolding node_get Option.bind
get b i =
    if not (in_range i)
    then none
    else if not (bit (b.bmp1 (id0 i)) (id1 i))
    then some false
    else Option.bind (b.nodes (id0 i) (id1 i)) (λ n. node_get n i)

-- A loop body that may read through NULL, run for each of the ids: all its calls, in order.
unfoldable pub try_each : List ℕ → (ℕ → Option (List ℕ)) → Option (List ℕ)
try_each [] f = some []
try_each (x ∷ xs) f = Option.bind (f x) (λ l. Option.map (λ r. l ++ r) (try_each xs f))

-- `__xdb_lv1bmp_iterate`
pub node_iterate : Node → ℕ → Option (List ℕ)
node_iterate n bid = try_each (word_ids n.bmp2) λ a.
    try_each (word_ids (n.bmp3 a))
      λ c. Option.map (λ l. Leaf.iterate l (bid + a * 2 ^ 18 + c * 2 ^ 12)) (n.leaves a c)

-- `xdb_bmp_iterate`: the bits with which the callback is called, in order. A word that is zero has
-- no ids, so the test of `bits1` is that of the byte loop.
unfoldable pub iterate : Bmp → Option (List ℕ)
unfolding node_iterate try_each Option.bind
iterate b = try_each (0 ∷ 1 ∷ []) λ a.
    if b.bmp1 a == 0
    then some []
    else try_each (word_ids (b.bmp1 a))
        λ c. Option.bind (b.nodes a c) (λ n. node_iterate n (a * 2 ^ 30 + c * 2 ^ 24))
