-- ===== src/Hash/Found.antt =====
-- `xdb_hash_query` finds the rows of the key, and `xdb_hash_query2` may find others.
use mathlib.Core.Option
use Prim.Native.Nat.{bit_and}
use cross_db.Base.{
  ℕ, zero, suc, ◌+◌, ◌^◌, ◌<◌, ◌≡◌, refl, ap, Bool, true, false, if◌then◌else◌, arith, some, List,
  [], ◌∷◌, ◌++◌, length, All, Bool-cases, inl, inr, ◌⊎◌, lt→ltb, ne→==, eq→==,
}
use cross_db.Hash.{Hash, Node, positive, find_top, find_valid}
use cross_db.Hash.Query.{offer_from, offer_rows, query, find_row, query2}
use cross_db.Hash.Chains.{Group, IsRow, Sibs, Tops, matches, lookup}

-- Rows offered to a row set until it is full.
unfoldable pub offer_all {ℓ} : {S : Type ℓ} → (ℕ → Bool) → (S → ℕ → S × Bool) → List ℕ → S → S
offer_all ok offer [] s = s
offer_all ok offer (x ∷ xs) s =
    if ok x
    then (let (s', full) = offer s x in if full then s' else offer_all ok offer xs s')
    else offer_all ok offer xs s

row-positive : (r : ℕ) → IsRow r → positive r ≡ true
row-positive r h = rw (lt→ltb 0 r h.0, lt→ltb r (2 ^ 31) h.1) refl

offer_from-Sibs {ℓ} :
    {S : Type ℓ} (turns : ℕ) (nodes : ℕ → Node) (ok : ℕ → Bool) (offer : S → ℕ → S × Bool)
    (p tag r : ℕ) (xs : List ℕ) (s : S)
    → length xs < turns
    → Sibs nodes p tag r xs
    → offer_from turns nodes ok offer r s ≡ some (offer_all ok offer xs s)
unfolding offer_from offer_all
offer_from-Sibs zero nodes ok offer p tag r xs s lt h = absurd (omega (arith, lt))
offer_from-Sibs (suc turns) nodes ok offer p tag r [] s lt h = rw h refl
offer_from-Sibs {S = S} (suc turns) nodes ok offer p tag r (x ∷ xs) s lt h =
    let ih = λ (z : S).
      offer_from-Sibs turns nodes ok offer x (2 ^ 31) (nodes x).next xs z (omega arith) h.4 in
    rw (h.0, row-positive x h.1)
      (elim (Bool-cases (ok x)) [
        | inl e ↦ rw e (elim (Bool-cases (offer s x).1) [
          | inl k ↦ rw k refl
          | inr k ↦ rw k (ih (offer s x).0)
        ])
        | inr e ↦ rw e (ih s)
      ])

offer_rows-Sibs {ℓ} :
    {S : Type ℓ} (turns : ℕ) (nodes : ℕ → Node) (ok : ℕ → Bool) (offer : S → ℕ → S × Bool)
    (g : Group) (s : S)
    → length g.sibs < turns
    → Sibs nodes 0 g.top (nodes g.top).sibling g.sibs
    → offer_rows turns nodes ok offer g.top s ≡ some (offer_all ok offer (g.top ∷ g.sibs) s)
unfolding offer_rows offer_all
offer_rows-Sibs {S = S} turns nodes ok offer g s lt h =
    let rest =
      λ (z : S). offer_from-Sibs turns nodes ok offer 0 g.top (nodes g.top).sibling g.sibs z lt h in
    elim (Bool-cases (ok g.top)) [
      | inl e ↦ rw e (elim (Bool-cases (offer s g.top).1) [
        | inl k ↦ rw k refl
        | inr k ↦ rw k (rest (offer s g.top).0)
      ])
      | inr e ↦ rw e (rest s)
    ]

-- The walk over the top nodes.
pub find_top-Tops :
    (turns n : ℕ) (nodes : ℕ → Node) (hash : ℕ) (eq : ℕ → Bool) (p r : ℕ) (gs : List Group)
    → length gs < turns
    → All (λ g. length g.sibs < n) gs
    → Tops nodes p r gs
    → ((find_top turns nodes hash eq r ≡ some 0) × (lookup nodes hash eq gs ≡ []))
      ⊎ ((g : Group) × (find_top turns nodes hash eq r ≡ some g.top)
          × (lookup nodes hash eq gs ≡ g.top ∷ g.sibs)
          × IsRow g.top
          × Sibs nodes 0 g.top (nodes g.top).sibling g.sibs
          × (length g.sibs < n)
          × ((pre : List Group) × (post : List Group) × (gs ≡ pre ++ g ∷ post)
              × (lookup nodes hash eq pre ≡ [])
              × (matches nodes hash eq g ≡ true)))
unfolding find_top lookup
find_top-Tops zero n nodes hash eq p r gs lt lts h = absurd (omega (arith, lt))
find_top-Tops (suc turns) n nodes hash eq p r [] lt lts h = inl (rw h refl, refl)
find_top-Tops (suc turns) n nodes hash eq p r (g ∷ gs) lt lts h =
    let ih =
      find_top-Tops turns n nodes hash eq g.top (nodes g.top).next gs (omega arith) lts.1 h.4 in
    elim (Bool-cases (matches nodes hash eq g)) [
      | inl e ↦ inr (
        g,
        rw (h.0, row-positive g.top h.1, e) refl,
        rw e refl,
        h.1,
        h.3,
        lts.0,
        ([], gs, refl, refl, e),
      )
      | inr e ↦
          rw (h.0, row-positive g.top h.1, e)
            (elim ih [
              | inl none_found ↦ inl none_found
              | inr (f, top, found, row, sibs, short, (pre, post, parts, before, hit)) ↦ inr (
                f,
                top,
                found,
                row,
                sibs,
                short,
                (g ∷ pre, post, ap (λ xs. g ∷ xs) parts, rw e before, hit),
              )
            ])
    ]

-- `xdb_hash_query` walks its slot's chain to the end and offers exactly the rows of the key, the top node
-- and its siblings, as far as the connection sees them and the conditions hold, until the row set is full.
pub query_lem {ℓ} :
    {S : Type ℓ} (turns : ℕ) (eq : ℕ → Bool) (hash : ℕ) (ok : ℕ → Bool) (offer : S → ℕ → S × Bool)
    (h : Hash) (s : S) (gs : List Group)
    → Tops h.nodes (2 ^ 31 + bit_and hash h.slot_mask) (h.slots (bit_and hash h.slot_mask)) gs
    → length gs < turns
    → All (λ g. length g.sibs < turns) gs
    → query turns eq hash ok offer h s ≡ some (offer_all ok offer (lookup h.nodes hash eq gs) s)
unfolding query offer_all Option.bind
query_lem turns eq hash ok offer h s gs t lt lts =
    elim (find_top-Tops turns turns h.nodes hash eq _ _ gs lt lts t) [
      | inl (e, none_found) ↦ rw (e, none_found) refl
      | inr (g, e, found, row, sibs, short, parts) ↦
          rw (e, found, ne→== g.top 0 (omega (arith, row.0)))
            (offer_rows-Sibs turns h.nodes ok offer g s short sibs)
    ]

-- The first row that is seen, or 0.
unfoldable pub first_seen : (ℕ → Bool) → List ℕ → ℕ
first_seen valid [] = 0
first_seen valid (x ∷ xs) = if valid x then x else first_seen valid xs

pub find_valid-Sibs :
    (turns : ℕ) (nodes : ℕ → Node) (valid : ℕ → Bool) (p tag r : ℕ) (xs : List ℕ)
    → length xs < turns
    → Sibs nodes p tag r xs
    → find_valid turns nodes valid r ≡ some (first_seen valid xs)
unfolding find_valid first_seen
find_valid-Sibs zero nodes valid p tag r xs lt h = absurd (omega (arith, lt))
find_valid-Sibs (suc turns) nodes valid p tag r [] lt h = rw h refl
find_valid-Sibs (suc turns) nodes valid p tag r (x ∷ xs) lt h =
    let ih = find_valid-Sibs turns nodes valid x (2 ^ 31) (nodes x).next xs (omega arith) h.4 in
    rw (h.0, row-positive x h.1)
      (elim (Bool-cases (valid x)) [ inl e ↦ rw e refl | inr e ↦ rw e ih ])

-- When the first key of a chain has the hash value that is looked for but is another key,
-- `xdb_hash_query2` gives the first sibling of that other key that is seen, or else 0, and does not look
-- at the keys behind it.
pub query2-collision :
    (turns : ℕ) (eq valid : ℕ → Bool) (hash : ℕ) (h : Hash) (g : Group) (gs : List Group)
    → Tops h.nodes (2 ^ 31 + bit_and hash h.slot_mask) (h.slots (bit_and hash h.slot_mask)) (g ∷ gs)
    → length g.sibs < turns
    → (h.nodes g.top).hash_val ≡ hash
    → eq g.top ≡ false
    → query2 (suc turns) eq valid hash h ≡ some (first_seen valid g.sibs)
unfolding query2 find_row
query2-collision turns eq valid hash h g gs t lt same other =
    rw (t.0, row-positive g.top t.1, eq→== _ _ same, other)
      (find_valid-Sibs turns h.nodes valid 0 g.top (h.nodes g.top).sibling g.sibs lt t.3)
