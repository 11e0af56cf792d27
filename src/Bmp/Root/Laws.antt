-- ===== src/Bmp/Root/Laws.antt =====
-- `xdb_bmp_get`, `xdb_bmp_set` and `xdb_bmp_clr`: a bitmap that is valid stays so, no NULL is read,
-- and the bits that it holds are those of a set of numbers.
use mathlib.Core.Bool.{false≢true}
use mathlib.Core.Path.{ap₂, fun_ext}
use cross_db.Base.{
  ℕ, ◌+◌, ◌%◌, ◌^◌, ◌<◌, ◌≡◌, refl, sym, ap, ◌∙◌, true, false, ◌==◌, ltb, ◌&&◌, if◌then◌else◌,
  arith, Option, none, some, lt→ltb, Bool-cases, inl, inr, update,
}
use cross_db.Bmp.Word.{bit, set_bit, bit-zero}
use cross_db.Bmp.Leaf.{Leaf}
use cross_db.Bmp.Root.{
  Node, Bmp, Ret, ok, id0, id1, put_node, update₂, clear_node, lv1_allocate, node_set, set_new,
  init, get, set, in_range,
}
use cross_db.Bmp.Root.Valid.{node_member, node_at, member, NodeOk, NodePtr, IsValid}
use cross_db.Bmp.Root.Nodes.{
  update₂-eq, at_update₂, marked_same, marked_more, clear_node-NodeOk, node_member-clear,
  node_get_lem, node_set_lem,
}

-- The pointer behind a set bit of `bmp1`.
pub node_behind :
    (b : Bmp) (a c : ℕ)
    → IsValid b
    → bit (b.bmp1 a) c ≡ true
    → (n : Node) × (b.nodes a c ≡ some n) × NodeOk n
node_behind b a c v h = go (b.nodes a c) refl (v.node_ptr a c h)
  where
    go :
        (p : Option Node)
        → b.nodes a c ≡ p
        → NodePtr p
        → (n : Node) × (b.nodes a c ≡ some n) × NodeOk n
    go none e k = absurd k
    go (some n) e k = (n, e, k)

pub in_range_lem : (i : ℕ) → i < 2 ^ 31 → in_range i ≡ true
in_range_lem i h = lt→ltb (id0 i) 2 (omega arith)

pub init-IsValid : (b : Bmp) → IsValid (init b)
unfolding init
init-IsValid b = record { node_ptr = λ a c e. absurd (false≢true (sym (bit-zero c) ∙ e)) }

pub member-init : (b : Bmp) (j : ℕ) → member (init b) j ≡ false
unfolding init
member-init b j = rw (bit-zero (id1 j))

-- `xdb_bmp_get` of a bit below 2 ^ 31 on a valid bitmap reads no NULL, and tells whether the bit is
-- set.
pub get_lem : (b : Bmp) (i : ℕ) → IsValid b → i < 2 ^ 31 → get b i ≡ some (member b i)
unfolding get
get_lem b i v r = elim (Bool-cases (bit (b.bmp1 (id0 i)) (id1 i))) [
  | inl h ↦
      let (n, e, k) = node_behind b (id0 i) (id1 i) v h in
      rw (in_range_lem i r, h, e) (node_get_lem n i k)
  | inr h ↦ rw (in_range_lem i r, h)
]

-- The bitmap `b'` after the pointer of `i` became `p` and the words of `bmp1` became `w1`.
module _ (b b' : Bmp) (i : ℕ) (w1 : ℕ → ℕ) (p : Option Node) where
  pub record Changed : Type 0 where
    pub words : b'.bmp1 ≡ w1
    pub pointers : b'.nodes ≡ update₂ b.nodes (id0 i) (id1 i) p

  module _ (v : IsValid b) (ch : Changed) where
    grown-IsValid :
        ((a c : ℕ)
          → bit (w1 a) c ≡ (if (a == id0 i) && (c == id1 i) then true else bit (b.bmp1 a) c))
        → NodePtr p
        → IsValid b'
    grown-IsValid marked k = record {
      node_ptr = λ a c e. rw ch.pointers (
          at_update₂ NodePtr b.nodes (id0 i) (id1 i) p a c k (λ ne.
            v.node_ptr a c (sym (marked a c ∙ rw ne) ∙ sym (ap (λ w. bit (w a) c) ch.words) ∙ e)));
    }

    member-grown :
        ((a c : ℕ)
          → bit (w1 a) c ≡ (if (a == id0 i) && (c == id1 i) then true else bit (b.bmp1 a) c))
        → ((j : ℕ)
            → node_at p j ≡ (
                if j % 2 ^ 24 == i % 2 ^ 24
                then true
                else (if bit (b.bmp1 (id0 i)) (id1 i)
                    then node_at (b.nodes (id0 i) (id1 i)) j
                    else false)))
        → (j : ℕ) → member b' j ≡ (if j == i then true else member b j)
    member-grown marked at_p j =
        rw (ch.pointers, ch.words, update₂-eq, marked (id0 j) (id1 j))
          (elim (Bool-cases ((id0 j == id0 i) && (id1 j == id1 i))) [
            | inl t ↦
                let e0 : id0 j ≡ id0 i = ground arith in
                let e1 : id1 j ≡ id1 i = ground arith in rw (t, at_p j, e0, e1) (ground arith)
            | inr t ↦ rw t (ground arith)
          ])

-- A node that `xdb_bmp_lv1alloc` hands out.
fresh_node :
    (b : Bmp) (m : Node)
    → (n : Node) × (al : ℕ) × ((lv1_allocate b (some m)).0 ≡ some n)
      × ((lv1_allocate b (some m)).1 ≡ record b { lv1_alloc = al })
      × NodeOk n
      × ((j : ℕ) → node_member n j ≡ false)
unfolding lv1_allocate
fresh_node b m = elim (Bool-cases (ltb b.lv1_alloc 1)) [
  | inl e ↦ (
    clear_node false (b.lv1_bmp b.lv1_alloc),
    b.lv1_alloc + 1,
    rw e,
    rw e,
    clear_node-NodeOk false _,
    node_member-clear false (b.lv1_bmp b.lv1_alloc),
  )
  | inr e ↦ (
    clear_node true m,
    b.lv1_alloc,
    rw e,
    rw e,
    clear_node-NodeOk true _,
    node_member-clear true m,
  )
]

update₂-twice :
    {A : Type 0} (f : ℕ → ℕ → A) (x y : ℕ) (p q : A)
    → update₂ (update₂ f x y p) x y q ≡ update₂ f x y q
update₂-twice f x y p q = fun_ext λ a. fun_ext λ c.
    rw (update₂-eq f x y q, update₂-eq (update₂ f x y p) x y q)
      (elim (Bool-cases ((a == x) && (c == y))) [
        | inl t ↦ rw t
        | inr t ↦ rw (t, update₂-eq f x y p, t)
      ])

set_unset :
    (b : Bmp) (i : ℕ) (m1 : Node) (m2 : Leaf)
    → i < 2 ^ 31
    → bit (b.bmp1 (id0 i)) (id1 i) ≡ false
    → set b i (some m1) (some m2)
      ≡ set_new (lv1_allocate b (some m1)).0 (lv1_allocate b (some m1)).1 i (some m2)
unfolding set
set_unset b i m1 m2 r h = rw (in_range_lem i r, h)

set_new-some :
    (n : Node) (b' : Bmp) (i : ℕ) (m : Option Leaf)
    → set_new (some n) b' i m
      ≡ node_set
          (put_node
            (record b' { bmp1 = update b'.bmp1 (id0 i) (set_bit (b'.bmp1 (id0 i)) (id1 i)) })
            i
            (some n))
          n
          i
          m
unfolding set_new
set_new-some n b' i m = refl

-- What `xdb_bmp_set` makes of a bitmap.
pub record SetDone (b : Bmp) (i : ℕ) (r : Option (Bmp × Ret)) : Type 0 where
  pub result : Bmp
  pub runs : r ≡ some (result, ok)
  pub valid : IsValid result
  pub has : (j : ℕ) → member result j ≡ (if j == i then true else member b j)

-- `xdb_bmp_set` of a bit below 2 ^ 31 on a valid bitmap, when malloc gives memory where it is
-- called: no NULL is read, 0 is returned, the bitmap stays valid, and the bits set are those from
-- before and this one.
pub set_lem :
    (b : Bmp) (i : ℕ) (m1 : Node) (m2 : Leaf)
    → IsValid b
    → i < 2 ^ 31
    → SetDone b i (set b i (some m1) (some m2))
unfolding set
set_lem b i m1 m2 v r = elim (Bool-cases (bit (b.bmp1 (id0 i)) (id1 i))) [
  | inl h ↦
      let (n, e, k) = node_behind b (id0 i) (id1 i) v h in
      let d = node_set_lem b n i m2 k in
      let ch : Changed b (put_node (record b { lv2_alloc = d.al }) i (some d.result)) i b.bmp1
          (some d.result) =
        record { words = refl; pointers = refl } in
      let marked = marked_same b.bmp1 (id0 i) (id1 i) h in
      record {
        result = put_node (record b { lv2_alloc = d.al }) i (some d.result);
        runs = rw (in_range_lem i r, h, e) d.runs;
        valid = grown-IsValid b _ i b.bmp1 (some d.result) v ch marked d.good;
        has = member-grown b _ i b.bmp1 (some d.result) v ch marked (λ j. rw (h, e) (d.has j));
      }
  | inr h ↦
      let (n, al, e, e', k, empty) = fresh_node b m1 in
      let w1 = update b.bmp1 (id0 i) (set_bit (b.bmp1 (id0 i)) (id1 i)) in
      let b1 = put_node (record b { lv1_alloc = al; bmp1 = w1 }) i (some n) in
      let d = node_set_lem b1 n i m2 k in
      let b2 = put_node (record b1 { lv2_alloc = d.al }) i (some d.result) in
      let ch : Changed b b2 i w1 (some d.result) = record {
        words = refl;
        pointers = update₂-twice b.nodes (id0 i) (id1 i) (some n) (some d.result);
      } in
      let marked = marked_more b.bmp1 (id0 i) (id1 i) in
      record {
        result = b2;
        runs =
            set_unset b i m1 m2 r h
            ∙ ap₂ (λ p c. set_new p c i (some m2)) e e'
            ∙ set_new-some n (record b { lv1_alloc = al }) i (some m2)
            ∙ d.runs;
        valid = grown-IsValid b b2 i w1 (some d.result) v ch marked d.good;
        has =
            member-grown b b2 i w1 (some d.result) v ch marked (λ j. rw h (d.has j ∙ rw (empty j)));
      }
]
