-- ===== src/Hash/Tests.antt =====
-- An index with four slots and four rows, and the theorems at it.
use mathlib.Core.Option
use cross_db.Base.{
  ℕ, ◌+◌, ◌^◌, ◌≡◌, ◌⊎◌, refl, sym, ◌∙◌, Bool, true, false, not, ◌==◌, if◌then◌else◌, some, List,
  [], ◌∷◌, NotIn, Distinct, Bool-cases, inl, inr, ==→eq, subst, arith,
}
use cross_db.Hash.{Hash, Node, insert, find_top, unlink, push, rehash, rehash_chain}
use cross_db.Hash.Query.{query, query2, offer_rows, offer_from}
use cross_db.Hash.Remove.{rem}
use cross_db.Hash.Chains.{Group, rows, Tops, lookup}
use cross_db.Hash.Found.{offer_all, query_lem, query2-collision, first_seen}
use cross_db.Hash.Valid.{Chains}
use cross_db.Hash.Laws.{insert-Chains, Refused, Joined}

abbrev node : ℕ → ℕ → ℕ → ℕ → Node
node next prev sibling hash = record {
  next = next;
  prev = prev;
  sibling = sibling;
  hash_val = hash;
}

-- The rows 5, 7 and 6 have one key and the row 8 has another, all in the slot 1.
abbrev nodes : ℕ → Node
nodes i =
    if i == 5
    then node 8 (2 ^ 31 + 1) 7 1
    else if i == 7
    then node 6 0 5 1
    else if i == 6
    then node 0 7 (2 ^ 31) 1
    else if i == 8
    then node 0 5 0 5
    else node 0 0 0 0

abbrev index : Hash
index = record {
  row_count = 4;
  node_count = 2;
  slot_count = 1;
  node_cap = 16;
  slot_cap = 4;
  slot_mask = 3;
  nodes = nodes;
  slots = λ k. if k == 1 then 5 else 0;
}

abbrev chain : List Group
chain = record { top = 5; sibs = 7 ∷ 6 ∷ [] } ∷ record { top = 8; sibs = [] } ∷ []

abbrev groups : ℕ → List Group
groups k = if k == 1 then chain else []

rows_differ : Distinct (rows chain)
rows_differ = (
  (λ e. omega (arith, e), (λ e. omega (arith, e), (λ e. omega (arith, e), tt))),
  ((λ e. omega (arith, e), (λ e. omega (arith, e), tt)), ((λ e. omega (arith, e), tt), (tt, tt))),
)

slot_one : Tops nodes (2 ^ 31 + 1) 5 chain
slot_one = (
  refl,
  (omega arith, omega arith),
  refl,
  (
    refl,
    (omega arith, omega arith),
    refl,
    refl,
    (refl, (omega arith, omega arith), refl, refl, refl),
  ),
  (refl, (omega arith, omega arith), refl, refl, refl),
)

index-Chains : Chains index groups
index-Chains = record {
  tops = λ k lt. elim (Bool-cases (k == 1)) [
    | inl e ↦
        subst (λ (i : ℕ). Tops nodes (2 ^ 31 + i) (index.slots i) (groups i)) (sym (==→eq k 1 e))
          slot_one
    | inr e ↦ rw e refl
  ];
  distinct = λ k. elim (Bool-cases (k == 1)) [ inl e ↦ rw e rows_differ | inr e ↦ rw e tt ];
  apart = λ j k n. elim (Bool-cases (j == 1)) [
    | inl e ↦ elim (Bool-cases (k == 1)) [
      | inl f ↦ absurd (n (==→eq j 1 e ∙ sym (==→eq k 1 f)))
      | inr f ↦ rw (e, f) (tt, (tt, (tt, (tt, tt))))
    ]
    | inr e ↦ rw e tt
  ];
}

-- The row 9 is in no chain.
fresh_nine : (j : ℕ) → NotIn 9 (rows (groups j))
fresh_nine j = elim (Bool-cases (j == 1)) [
  | inl e ↦ rw e (
    λ d. omega (arith, d),
    (λ d. omega (arith, d), (λ d. omega (arith, d), (λ d. omega (arith, d), tt))),
  )
  | inr e ↦ rw e tt
]

-- All rows are seen, and a row set that takes everything.
abbrev all : ℕ → Bool
all r = true

abbrev offer : List ℕ → ℕ → List ℕ × Bool
offer s x = (x ∷ s, false)

-- The rows of the first key but the row 5, and the rows 5 to 9 but 8.
abbrev first_key : ℕ → Bool
first_key r = not (r == 8)

nine_refused :
    Refused 4 true all first_key 1 index 9 groups ⊎ Joined 4 true all first_key 1 index 9 groups
unfolding insert
nine_refused =
    insert-Chains 4 true all first_key 1 index 9 groups index-Chains (omega arith)
      (omega arith, omega arith) fresh_nine refl (omega arith) (omega arith, (omega arith, tt))

rows_offered :
    query 4 first_key 1 all offer index []
    ≡ some (offer_all all offer (lookup nodes 1 first_key chain) [])
rows_offered =
    query_lem 4 first_key 1 all offer index [] chain slot_one (omega arith)
      (omega arith, (omega arith, tt))

-- No row has the key that is looked for, which has the hash value 1, too.
wrong_row_found : query2 4 (λ r. false) all 1 index ≡ some (first_seen all (7 ∷ 6 ∷ []))
wrong_row_found =
    query2-collision 3 (λ r. false) all 1 index (record { top = 5; sibs = 7 ∷ 6 ∷ [] })
      (record { top = 8; sibs = [] } ∷ []) slot_one (omega arith) refl refl

-- The top node is taken out, and the others are found.
five_removed : query 4 first_key 1 all offer (rem index 5) [] ≡ some (6 ∷ 7 ∷ [])
unfolding rem unlink query find_top offer_rows offer_from Option.bind
five_removed = refl

eight_removed : query 4 (λ r. r == 8) 5 all offer (rem index 8) [] ≡ some []
unfolding rem unlink query find_top offer_rows offer_from Option.bind
eight_removed = refl

-- With eight slots the row 8 moves to the slot 5.
eight_moved :
    Option.map {B = ℕ × ℕ}
      (λ h. (h.slots 1, h.slots 5))
      (rehash 4 4 0 (record index { slot_cap = 8; slot_mask = 7 }))
    ≡ some (5, 8)
unfolding rehash rehash_chain unlink push Option.bind
eight_moved = refl
