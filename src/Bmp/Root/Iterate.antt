-- ===== src/Bmp/Root/Iterate.antt =====
-- `xdb_bmp_iterate`: on a valid bitmap it reads no NULL, and calls back with the bits that are set.
use mathlib.Core.Option
use native.Mathlib.Nat.{add-zero, zero-mul}
use mathlib.Core.List.{append-nil}
use cross_db.Base.{
  ℕ, zero, suc, ◌+◌, ◌*◌, ◌/◌, ◌%◌, ◌^◌, ◌<◌, ◌≤◌, ◌≡◌, refl, sym, ap, ◌∙◌, Bool, true, false, ◌==◌,
  ◌&&◌, if◌then◌else◌, arith, Option, none, some, ==→eq, Bool-cases, inl, inr, List, [], ◌∷◌, ◌++◌,
  map,
}
use cross_db.Bmp.Word.{bit, bit-zero}
use cross_db.Bmp.Scan.{
  scan, for_each, word_ids, word_ids-eq-scan, scan-none, scan-shift, scan-move, scan-append,
  for_each-scan, scan-ext,
}
use cross_db.Bmp.Leaf
use cross_db.Bmp.Leaf.{Leaf, id4, id5}
use cross_db.Bmp.Leaf.Laws.{iterate-eq-scan}
use cross_db.Bmp.Root.{Node, Bmp, id1, id2, id3, try_each, node_iterate, iterate}
use cross_db.Bmp.Root.Valid.{leaf_at, node_member, member, LeafOk, NodeOk, IsValid}
use cross_db.Bmp.Root.Nodes.{leaf_behind}
use cross_db.Bmp.Root.Laws.{node_behind}

-- Where no body reads NULL, the loop makes the calls of the bodies.
try_each-scan :
    (p : ℕ → Bool) (f : ℕ → Option (List ℕ)) (g : ℕ → List ℕ) (i n : ℕ)
    → ((a : ℕ) → i ≤ a → a < i + n → p a ≡ true → f a ≡ some (g a))
    → try_each (scan p i n) f ≡ some (for_each (scan p i n) g)
unfolding scan try_each for_each Option.bind
try_each-scan p f g i zero h = refl
try_each-scan p f g i (suc n) h =
    let ih = try_each-scan p f g (i + 1) n (λ a u v. h a (omega arith) (omega arith)) in
    elim (Bool-cases (p i)) [
      | inl t ↦ rw (t, h i (omega arith) (omega arith) t, ih)
      | inr t ↦ rw (t, ih)
    ]

-- A loop over the ids of `p` whose bodies make the calls of `g` in blocks of `m`.
try_each-blocks :
    (p g : ℕ → Bool) (f : ℕ → Option (List ℕ)) (b m n : ℕ)
    → ((a : ℕ) → a < n → p a ≡ true → f a ≡ some (map (λ x. b + x) (scan g (a * m) m)))
    → ((a x : ℕ) → a < n → p a ≡ false → a * m ≤ x → x < a * m + m → g x ≡ false)
    → try_each (scan p 0 n) f ≡ some (map (λ x. b + x) (scan g 0 (n * m)))
try_each-blocks p g f b m n h k =
    try_each-scan p f (λ a. map (λ x. b + x) (scan g (a * m) m)) 0 n (λ a u v. h a (omega arith))
    ∙ ap some (
        rw zero-mul at (
          for_each-scan p g (λ a. map (λ x. b + x) (scan g (a * m) m)) b m 0 n (λ a u v t. refl)
            (λ a u v t. scan-none g (a * m) m λ x lo hi. k a x (omega arith) t lo hi)))

-- The bit `i` of a leaf that is good is seen by `xdb_lv2bmp_get`.
get-leaf : (l : Leaf) (i : ℕ) → LeafOk l → Leaf.get l i ≡ leaf_at (some l) i
unfolding Leaf.get
get-leaf l i k = ground (arith, k.covers4 (id4 i) (id5 i))

leaf_iterate :
    (l : Leaf) (bid : ℕ)
    → LeafOk l
    → Leaf.iterate l bid ≡ map (λ x. bid + x) (scan (leaf_at (some l)) 0 4096)
leaf_iterate l bid k =
    iterate-eq-scan l bid ∙ ap (map (λ x. bid + x)) (scan-ext _ _ 0 4096 (λ x u v. get-leaf l x k))

-- The bits of the block of `id2 = a` and `id3 = c`.
leaf_block :
    (n : Node) (a c x : ℕ) (l : Leaf)
    → a < 64
    → c < 64
    → bit (n.bmp3 a) c ≡ true
    → n.leaves a c ≡ some l
    → x < 4096
    → node_member n (a * 2 ^ 18 + (c * 2 ^ 12 + x)) ≡ leaf_at (some l) x
leaf_block n a c x l ha hc t e hx =
    let e2 : (a * 2 ^ 18 + (c * 2 ^ 12 + x)) / 2 ^ 18 % 64 ≡ a = omega arith in
    let e3 : (a * 2 ^ 18 + (c * 2 ^ 12 + x)) / 2 ^ 12 % 64 ≡ c = omega arith in
    let e4 : (a * 2 ^ 18 + (c * 2 ^ 12 + x)) / 64 % 64 ≡ x / 64 % 64 = omega arith in
    let e5 : (a * 2 ^ 18 + (c * 2 ^ 12 + x)) % 64 ≡ x % 64 = omega arith in
    rw (e2, e3, t, e, e4, e5)

no_leaf_block :
    (n : Node) (a c x : ℕ)
    → a < 64
    → c < 64
    → bit (n.bmp3 a) c ≡ false
    → c * 2 ^ 12 ≤ x
    → x < c * 2 ^ 12 + 2 ^ 12
    → node_member n (a * 2 ^ 18 + x) ≡ false
no_leaf_block n a c x ha hc t lo hi =
    let e2 : (a * 2 ^ 18 + x) / 2 ^ 18 % 64 ≡ a = omega arith in
    let e3 : (a * 2 ^ 18 + x) / 2 ^ 12 % 64 ≡ c = omega arith in rw (e2, e3, t)

block_iterate :
    (n : Node) (bid a : ℕ)
    → NodeOk n
    → a < 64
    → try_each
        (word_ids (n.bmp3 a))
        (λ c. Option.map (λ l. Leaf.iterate l (bid + a * 2 ^ 18 + c * 2 ^ 12)) (n.leaves a c))
      ≡ some (map (λ x. bid + x) (scan (node_member n) (a * 2 ^ 18) (2 ^ 18)))
block_iterate n bid a k h =
    rw word_ids-eq-scan (
      try_each-blocks (bit (n.bmp3 a)) (λ x. node_member n (a * 2 ^ 18 + x)) _ (bid + a * 2 ^ 18)
        (2 ^ 12) 64
        (λ c u t.
          let (l, e, kl) = leaf_behind n a c k t in
          rw e (
            ap some (
              leaf_iterate l (bid + a * 2 ^ 18 + c * 2 ^ 12) kl
              ∙ scan-shift (leaf_at (some l)) (λ x. node_member n (a * 2 ^ 18 + x))
                  (bid + a * 2 ^ 18) (c * 2 ^ 12) 0 4096
                  (λ x lo hi. leaf_block n a c x l h u t e hi)
              ∙ rw add-zero)))
        (λ c x u t lo hi. no_leaf_block n a c x h u t lo hi))
    ∙ ap some (
        scan-shift (λ x. node_member n (a * 2 ^ 18 + x)) (node_member n) bid (a * 2 ^ 18) 0 (2 ^ 18)
          (λ x u v. refl)
        ∙ rw add-zero)

skipped_block :
    (n : Node) (a x : ℕ)
    → NodeOk n
    → a < 64
    → bit n.bmp2 a ≡ false
    → a * 2 ^ 18 ≤ x
    → x < a * 2 ^ 18 + 2 ^ 18
    → node_member n x ≡ false
skipped_block n a x k h t lo hi =
    let e2 : x / 2 ^ 18 % 64 ≡ a = omega arith in rw (e2, k.covers2 a (id3 x) h t)

node_iterate_lem :
    (n : Node) (bid : ℕ)
    → NodeOk n
    → node_iterate n bid ≡ some (map (λ x. bid + x) (scan (node_member n) 0 (2 ^ 24)))
unfolding node_iterate
node_iterate_lem n bid k = rw word_ids-eq-scan (
    try_each-blocks (bit n.bmp2) (node_member n) _ bid (2 ^ 18) 64
      (λ a u t. block_iterate n bid a k u) (λ a x u t lo hi. skipped_block n a x k u t lo hi))

leaf_at_low :
    (o : Option Leaf) (y x : ℕ) → id4 y ≡ id4 x → id5 y ≡ id5 x → leaf_at o y ≡ leaf_at o x
leaf_at_low none y x e e' = refl
leaf_at_low (some l) y x e e' = rw (e, e')

-- The bits of the block of `id0 = a` and `id1 = c`.
node_block :
    (b : Bmp) (a c x : ℕ) (n : Node)
    → c < 64
    → bit (b.bmp1 a) c ≡ true
    → b.nodes a c ≡ some n
    → x < 2 ^ 24
    → member b (a * 2 ^ 30 + (c * 2 ^ 24 + x)) ≡ node_member n x
node_block b a c x n hc t e hx =
    let y = a * 2 ^ 30 + (c * 2 ^ 24 + x) in
    let e0 : y / 2 ^ 30 ≡ a = omega arith in
    let e1 : y / 2 ^ 24 % 64 ≡ c = omega arith in
    let e2 : y / 2 ^ 18 % 64 ≡ x / 2 ^ 18 % 64 = omega arith in
    let e3 : y / 2 ^ 12 % 64 ≡ x / 2 ^ 12 % 64 = omega arith in
    let e4 : y / 64 % 64 ≡ x / 64 % 64 = omega arith in
    let e5 : y % 64 ≡ x % 64 = omega arith in
    rw (e0, e1, t, e, e2, e3)
      (ap (λ q. bit (n.bmp3 (id2 x)) (id3 x) && q)
        (leaf_at_low (n.leaves (id2 x) (id3 x)) y x e4 e5))

no_node_block :
    (b : Bmp) (a c x : ℕ)
    → c < 64
    → bit (b.bmp1 a) c ≡ false
    → c * 2 ^ 24 ≤ x
    → x < c * 2 ^ 24 + 2 ^ 24
    → member b (a * 2 ^ 30 + x) ≡ false
no_node_block b a c x hc t lo hi =
    let e0 : (a * 2 ^ 30 + x) / 2 ^ 30 ≡ a = omega arith in
    let e1 : (a * 2 ^ 30 + x) / 2 ^ 24 % 64 ≡ c = omega arith in rw (e0, e1, t)

-- The bits of one word of `bmp1`.
word_iterate :
    (b : Bmp) (a : ℕ)
    → IsValid b
    → try_each
        (word_ids (b.bmp1 a))
        (λ c. Option.bind (b.nodes a c) (λ n. node_iterate n (a * 2 ^ 30 + c * 2 ^ 24)))
      ≡ some (scan (member b) (a * 2 ^ 30) (2 ^ 30))
unfolding Option.bind
word_iterate b a v =
    rw word_ids-eq-scan (
      try_each-blocks (bit (b.bmp1 a)) (λ x. member b (a * 2 ^ 30 + x)) _ (a * 2 ^ 30) (2 ^ 24) 64
        (λ c u t.
          let (n, e, k) = node_behind b a c v t in
          rw e (
            node_iterate_lem n (a * 2 ^ 30 + c * 2 ^ 24) k
            ∙ ap some (
                scan-shift (node_member n) (λ x. member b (a * 2 ^ 30 + x)) (a * 2 ^ 30)
                  (c * 2 ^ 24) 0 (2 ^ 24) (λ x lo hi. node_block b a c x n u t e hi)
                ∙ rw add-zero)))
        (λ c x u t lo hi. no_node_block b a c x u t lo hi))
    ∙ ap some (
        scan-move (λ x. member b (a * 2 ^ 30 + x)) (member b) (a * 2 ^ 30) 0 (2 ^ 30)
          (λ x u v. refl)
        ∙ rw add-zero)

empty_word :
    (b : Bmp) (a x : ℕ)
    → b.bmp1 a ≡ 0
    → a * 2 ^ 30 ≤ x
    → x < a * 2 ^ 30 + 2 ^ 30
    → member b x ≡ false
empty_word b a x z lo hi = let e0 : x / 2 ^ 30 ≡ a = omega arith in rw (e0, z, bit-zero (id1 x))

-- The body of the outer loop.
abbrev calls_of : Bmp → ℕ → Option (List ℕ)
calls_of b a =
    if b.bmp1 a == 0
    then some []
    else try_each (word_ids (b.bmp1 a))
        λ c. Option.bind (b.nodes a c) (λ n. node_iterate n (a * 2 ^ 30 + c * 2 ^ 24))

word_calls :
    (b : Bmp) (a : ℕ) → IsValid b → calls_of b a ≡ some (scan (member b) (a * 2 ^ 30) (2 ^ 30))
word_calls b a v = elim (Bool-cases (b.bmp1 a == 0)) [
  | inl z ↦ rw z (
      ap some (
        sym (
          scan-none (member b) (a * 2 ^ 30) (2 ^ 30)
            (λ x lo hi. empty_word b a x (==→eq _ _ z) lo hi))))
  | inr z ↦ rw z (word_iterate b a v)
]

two_words :
    (f : ℕ → Option (List ℕ)) (xs ys : List ℕ)
    → f 0 ≡ some xs
    → f 1 ≡ some ys
    → try_each (0 ∷ 1 ∷ []) f ≡ some (xs ++ ys)
unfolding try_each Option.bind
two_words f xs ys h k = rw (h, k, append-nil)

-- `xdb_bmp_iterate` on a valid bitmap reads no NULL, and calls back with exactly the bits below 2 ^
-- 31 that are set, each once, in ascending order.
pub iterate_lem : (b : Bmp) → IsValid b → iterate b ≡ some (scan (member b) 0 (2 ^ 31))
unfolding iterate
iterate_lem b v =
    two_words (calls_of b) _ _ (word_calls b 0 v) (word_calls b 1 v)
    ∙ ap some (sym (scan-append (member b) 0 (2 ^ 30) (2 ^ 30)))
