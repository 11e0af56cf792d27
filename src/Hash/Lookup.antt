-- ===== src/Hash/Lookup.antt =====
-- What the writes of `xdb_hash_add` change of the rows that a key looks up.
use cross_db.Base.{
  ℕ, ◌+◌, ◌^◌, ◌≡◌, ◌≢◌, refl, sym, ap, ◌∙◌, Bool, ◌==◌, List, [], ◌∷◌, ◌++◌, length, All,
  All-right, All-map, NotIn, update, Bool-cases, inl, inr, if_both, ==→eq, update-other, arith,
}
use cross_db.Hash.{Hash, Node, add_sibling, add_top, push, set_prev, set_sibling}
use cross_db.Hash.Chains.{Group, rows, Tops-same, matches, lookup}
use cross_db.Hash.Valid.{Chains}

-- The hash values are the same.
abbrev pub SameHash : (ℕ → Node) → (ℕ → Node) → Type 0
SameHash n n' = (x : ℕ) → (n' x).hash_val ≡ (n x).hash_val

update-SameHash :
    (n : ℕ → Node) (i : ℕ) (v : Node) → v.hash_val ≡ (n i).hash_val → SameHash n (update n i v)
update-SameHash n i v e x = elim (Bool-cases (x == i)) [
  | inl k ↦ rw k (e ∙ ap (λ (y : ℕ). (n y).hash_val) (sym (==→eq x i k)))
  | inr k ↦ rw k refl
]

SameHash-trans : (n m l : ℕ → Node) → SameHash n m → SameHash m l → SameHash n l
SameHash-trans n m l h k x = k x ∙ h x

pub add_sibling-SameHash : (h : Hash) (top new : ℕ) → SameHash h.nodes (add_sibling h top new).nodes
unfolding add_sibling
add_sibling-SameHash h top new =
    let n = set_sibling h.nodes top new in
    let first = (h.nodes top).sibling in
    let m = update n new (record (n new) { prev = 0; next = first; sibling = top }) in
    let to_n = update-SameHash h.nodes top (record (h.nodes top) { sibling = new }) refl in
    let to_m =
      SameHash-trans h.nodes n m to_n
        (update-SameHash n new (record (n new) { prev = 0; next = first; sibling = top }) refl) in
    if_both (SameHash h.nodes) (first == 0) m _ to_m (
      SameHash-trans h.nodes m (update m first (record (m first) { prev = new; sibling = 2 ^ 31 }))
        to_m (update-SameHash m first (record (m first) { prev = new; sibling = 2 ^ 31 }) refl))

pub add_top-SameHash : (h : Hash) (k new : ℕ) → SameHash h.nodes (add_top h k new).nodes
unfolding add_top push
add_top-SameHash h k new =
    let n = set_sibling h.nodes new 0 in
    let first = h.slots k in
    let m = update n new (record (n new) { next = first; prev = 2 ^ 31 + k }) in
    let to_m =
      SameHash-trans h.nodes n m
        (update-SameHash h.nodes new (record (h.nodes new) { sibling = 0 }) refl)
        (update-SameHash n new (record (n new) { next = first; prev = 2 ^ 31 + k }) refl) in
    if_both (λ (p : Hash). SameHash h.nodes p.nodes) (first == 0) _ _ to_m
      (SameHash-trans h.nodes m (set_prev m first new) to_m
        (update-SameHash m first (record (m first) { prev = new }) refl))

-- The hash values alone tell what is looked up.
pub lookup-SameHash :
    (n n' : ℕ → Node) (hash : ℕ) (eq : ℕ → Bool) (gs : List Group)
    → SameHash n n'
    → lookup n' hash eq gs ≡ lookup n hash eq gs
unfolding lookup
lookup-SameHash n n' hash eq [] h = refl
lookup-SameHash n n' hash eq (g ∷ gs) h = rw (h g.top, lookup-SameHash n n' hash eq gs h) refl

pub lookup-before :
    (n : ℕ → Node) (hash : ℕ) (eq : ℕ → Bool) (pre gs : List Group)
    → lookup n hash eq pre ≡ []
    → lookup n hash eq (pre ++ gs) ≡ lookup n hash eq gs
unfolding lookup
lookup-before n hash eq [] gs h = refl
lookup-before n hash eq (a ∷ bs) gs h = elim (Bool-cases (matches n hash eq a)) [
  | inl e ↦
      let found : lookup n hash eq (a ∷ bs) ≡ a.top ∷ a.sibs = rw e refl in
      absurd (omega (arith, ap length (sym found ∙ h)))
  | inr e ↦ rw e (lookup-before n hash eq bs gs (sym (rw e refl) ∙ h))
]

-- The rows of the key with a new one: behind the top node, if there is one.
abbrev pub with_new : ℕ → List ℕ → List ℕ
with_new new [] = new ∷ []
with_new new (x ∷ xs) = x ∷ new ∷ xs

-- The state in which the key's hash value is in the new node.
abbrev pub hashed : Hash → ℕ → ℕ → Hash
hashed h new hash = record h {
  nodes = update h.nodes new (record (h.nodes new) { hash_val = hash });
}

pub hashed-same :
    (h : Hash) (new hash : ℕ) (ys : List ℕ)
    → NotIn new ys
    → All (λ x. (hashed h new hash).nodes x ≡ h.nodes x) ys
hashed-same h new hash ys n =
    All-map (λ y. new ≢ y) _ ys (λ y k. update-other h.nodes new y _ (λ e. k (sym e))) n

pub hashed-Chains :
    (h : Hash) (groups : ℕ → List Group) (new hash : ℕ)
    → ((j : ℕ) → NotIn new (rows (groups j)))
    → Chains h groups
    → Chains (hashed h new hash) groups
hashed-Chains h groups new hash fresh c = record {
  tops = λ k lt.
      Tops-same h.nodes _ (2 ^ 31 + k) (h.slots k) (groups k)
        (hashed-same h new hash (rows (groups k)) (fresh k)) (c.tops k lt);
  distinct = c.distinct;
  apart = c.apart;
}

pub lookup-same :
    (n n' : ℕ → Node) (hash : ℕ) (eq : ℕ → Bool) (gs : List Group)
    → All (λ x. n' x ≡ n x) (rows gs)
    → lookup n' hash eq gs ≡ lookup n hash eq gs
unfolding lookup
lookup-same n n' hash eq [] h = refl
lookup-same n n' hash eq (g ∷ gs) h =
    rw (h.0, lookup-same n n' hash eq gs (All-right _ g.sibs (rows gs) h.1)) refl
