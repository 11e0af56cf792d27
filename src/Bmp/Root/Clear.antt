-- ===== src/Bmp/Root/Clear.antt =====
-- `xdb_bmp_clr` on a valid bitmap.
use mathlib.Core.Bool.{false≢true}
use cross_db.Base.{
  ℕ, ◌%◌, ◌^◌, ◌<◌, ◌≡◌, refl, sym, ◌∙◌, true, false, ◌==◌, ◌&&◌, if◌then◌else◌, arith, Option,
  none, some, ==→eq, Bool-cases, inl, inr, update,
}
use cross_db.Bmp.Word.{bit, clr_bit}
use cross_db.Bmp.Root.{Node, Bmp, id0, id1, put_node, node_clr, clr}
use cross_db.Bmp.Root.Valid.{node_member, node_at, member, NodeOk, NodePtr, IsValid}
use cross_db.Bmp.Root.Nodes.{update₂-eq, at_update₂, marked_less}
use cross_db.Bmp.Root.Drop.{node_clr_lem, Remains}
use cross_db.Bmp.Root.Laws.{node_behind, in_range_lem, Changed}

-- What `xdb_bmp_clr` makes of a bitmap.
pub record ClrDone (b : Bmp) (i : ℕ) (r : Option Bmp) : Type 0 where
  pub result : Bmp
  pub runs : r ≡ some result
  pub valid : IsValid result
  pub has : (j : ℕ) → member result j ≡ (if j == i then false else member b j)

module _ (b : Bmp) (i : ℕ) (v : IsValid b) (h : bit (b.bmp1 (id0 i)) (id1 i) ≡ true) where
  -- The node of `i` went, and what was below it is gone.
  abbrev without_node : Bmp
  without_node = record (put_node b i none) {
    bmp1 = update b.bmp1 (id0 i) (clr_bit (b.bmp1 (id0 i)) (id1 i));
  }

  without_node-IsValid : IsValid without_node
  without_node-IsValid = record {
    node_ptr = λ a c e. elim (Bool-cases ((a == id0 i) && (c == id1 i))) [
      | inl t ↦ absurd (false≢true (sym (marked_less b.bmp1 (id0 i) (id1 i) a c ∙ rw t) ∙ e))
      | inr t ↦
          rw (update₂-eq, t)
            (v.node_ptr a c (sym (marked_less b.bmp1 (id0 i) (id1 i) a c ∙ rw t) ∙ e))
    ];
  }

  member-change :
      (b' : Bmp) (p : Option Node)
      → Changed b b' i b'.bmp1 p
      → ((j : ℕ)
          → ((id0 j == id0 i) && (id1 j == id1 i)) ≡ false
          → bit (b'.bmp1 (id0 j)) (id1 j) ≡ bit (b.bmp1 (id0 j)) (id1 j))
      → ((j : ℕ)
          → ((id0 j == id0 i) && (id1 j == id1 i)) ≡ true
          → (bit (b'.bmp1 (id0 j)) (id1 j) && node_at p j) ≡ node_at p j)
      → ((j : ℕ)
          → node_at p j
            ≡ (if j % 2 ^ 24 == i % 2 ^ 24 then false else node_at (b.nodes (id0 i) (id1 i)) j))
      → (j : ℕ) → member b' j ≡ (if j == i then false else member b j)
  member-change b' p ch other same at_p j =
      rw (ch.pointers, update₂-eq)
        (elim (Bool-cases ((id0 j == id0 i) && (id1 j == id1 i))) [
          | inl t ↦
              let e0 : id0 j ≡ id0 i = ground arith in
              let e1 : id1 j ≡ id1 i = ground arith in
              rw t (same j t ∙ at_p j ∙ rw (e0, e1, h) (ground arith))
          | inr t ↦ rw (t, other j t) (ground arith)
        ])

  clr_at :
      (n : Node) → b.nodes (id0 i) (id1 i) ≡ some n → NodeOk n → i < 2 ^ 31 → ClrDone b i (clr b i)
  unfolding clr
  clr_at n e k r = let d = node_clr_lem n i k in go d.result d.runs d.good d.has
    where
      go :
          (p : Option Node)
          → node_clr n i ≡ some p
          → Remains p
          → ((j : ℕ) → node_at p j ≡ (if j % 2 ^ 24 == i % 2 ^ 24 then false else node_member n j))
          → ClrDone b i (clr b i)
      go none run good has = record {
        result = without_node;
        runs = rw (in_range_lem i r, h, e, run);
        valid = without_node-IsValid;
        has =
            member-change without_node none (record { words = refl; pointers = refl })
              (λ j t. marked_less b.bmp1 (id0 i) (id1 i) (id0 j) (id1 j) ∙ rw t)
              (λ j t. ground arith) (λ j. has j ∙ rw e);
      }
      go (some n') run good has = record {
        result = put_node b i (some n');
        runs = rw (in_range_lem i r, h, e, run);
        valid = record {
          node_ptr = λ a c q.
              at_update₂ NodePtr b.nodes (id0 i) (id1 i) (some n') a c good
                (λ ne. v.node_ptr a c q);
        };
        has =
            member-change (put_node b i (some n')) (some n')
              (record { words = refl; pointers = refl }) (λ j t. refl)
              (λ j t.
                let e0 : id0 j ≡ id0 i = ground arith in
                let e1 : id1 j ≡ id1 i = ground arith in rw (e0, e1, h))
              (λ j. has j ∙ rw e);
      }

not_marked :
    (b : Bmp) (i : ℕ)
    → bit (b.bmp1 (id0 i)) (id1 i) ≡ false
    → (j : ℕ) → member b j ≡ (if j == i then false else member b j)
not_marked b i h j = elim (Bool-cases (j == i)) [ inl e ↦ rw (e, ==→eq j i e, h) | inr e ↦ rw e ]

-- `xdb_bmp_clr` of a bit below 2 ^ 31 on a valid bitmap: no NULL is read, the bitmap stays valid,
-- and the bits set are those from before but this one.
pub clr_lem : (b : Bmp) (i : ℕ) → IsValid b → i < 2 ^ 31 → ClrDone b i (clr b i)
unfolding clr
clr_lem b i v r = elim (Bool-cases (bit (b.bmp1 (id0 i)) (id1 i))) [
  | inl h ↦ let (n, e, k) = node_behind b (id0 i) (id1 i) v h in clr_at b i v h n e k r
  | inr h ↦ record {
    result = b;
    runs = rw (in_range_lem i r, h);
    valid = v;
    has = not_marked b i h;
  }
]
