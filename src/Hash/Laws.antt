-- ===== src/Hash/Laws.antt =====
-- `xdb_hash_add` behind the growth of the index: the invariant, the refusal of a duplicate, and that a
-- later look-up finds the row.
use mathlib.Core.Option
use Prim.Native.Nat.{bit_and}
use cross_db.Base.{
  ℕ, ◌<◌, ◌≡◌, ◌≢◌, refl, sym, ap, ◌∙◌, ◌⊎◌, Bool, true, false, ◌==◌, some, List, [], ◌∷◌, ◌++◌,
  length, All, NotIn, update, Bool-cases, inl, inr, ==→eq, ==→ne, eq→==, ne→==, update-same,
  update-other, arith,
}
use cross_db.Hash.{Hash, Node, insert, add_sibling, add_top}
use cross_db.Hash.Chains.{Group, rows, IsRow, matches, lookup}
use cross_db.Hash.Found.{find_top-Tops, find_valid-Sibs, first_seen}
use cross_db.Hash.Valid.{Chains}
use cross_db.Hash.Insert.{add_sibling-Chains, with_row}
use cross_db.Hash.Front.{add_top-Chains}
use cross_db.Hash.Lookup.{
  SameHash, lookup-SameHash, lookup-before, hashed-same, hashed-Chains, lookup-same,
  add_sibling-SameHash, add_top-SameHash, hashed, with_new,
}

-- The chain of the slot with the new row in it.
module _ (turns : ℕ) (unique : Bool) (valid eq : ℕ → Bool) (hash : ℕ) (h : Hash) (new : ℕ)
    (groups : ℕ → List Group) where
  abbrev slot : ℕ
  slot = bit_and hash h.slot_mask

  -- The groups of the slot afterwards: those that it had and one of the new row, or those that it had, with
  -- the row in the group of its key, the first sibling.
  abbrev pub Grown : List Group → Type 0
  Grown gs =
      ((lookup h.nodes hash eq (groups slot) ≡ [])
        × (gs ≡ record { top = new; sibs = [] } ∷ groups slot))
      ⊎ ((pre : List Group) × (g : Group) × (post : List Group) × (lookup h.nodes hash eq
              (groups slot)
            ≡ g.top ∷ g.sibs)
          × (groups slot ≡ pre ++ g ∷ post)
          × (gs ≡ pre ++ with_row g new ∷ post))

  -- The hash values of the rows: that of the key in the new row, the others as before.
  abbrev pub Hashes : Hash → Type 0
  Hashes h' =
      ((h'.nodes new).hash_val ≡ hash)
      × ((j : ℕ) → j ≢ new → (h'.nodes j).hash_val ≡ (h.nodes j).hash_val)

  kept_Hashes : (h' : Hash) → SameHash (hashed h new hash).nodes h'.nodes → Hashes h'
  kept_Hashes h' same = (
    same new
        ∙ ap (λ (n : Node). n.hash_val)
            (update-same h.nodes new (record (h.nodes new) { hash_val = hash })),
    λ j n.
        same j
        ∙ ap (λ (n : Node). n.hash_val)
            (update-other h.nodes new j (record (h.nodes new) { hash_val = hash }) n),
  )

  -- What `xdb_hash_add` does: a duplicate is refused, or the row joins.
  abbrev pub Refused : Type 0
  Refused =
      (unique ≡ true)
      × (first_seen valid (lookup h.nodes hash eq (groups slot)) ≢ 0)
      × (insert turns unique valid eq hash h new ≡ some (false, hashed h new hash))
      × Chains (hashed h new hash) groups

  abbrev pub Joined : Type 0
  Joined =
      ((unique ≡ false) ⊎ (first_seen valid (lookup h.nodes hash eq (groups slot)) ≡ 0))
      × ((h' : Hash) × (gs : List Group) × (insert turns unique valid eq hash h new
            ≡ some (true, h'))
          × Grown gs
          × Hashes h'
          × Chains h' (update groups slot gs)
          × (lookup h'.nodes hash eq gs ≡ with_new new (lookup h.nodes hash eq (groups slot))))

  -- A key that is new in the slot.
  first_row :
      Chains h groups
      → slot < h.slot_cap
      → IsRow new
      → ((j : ℕ) → NotIn new (rows (groups j)))
      → eq new ≡ true
      → lookup h.nodes hash eq (groups slot) ≡ []
      → insert turns unique valid eq hash h new ≡ some (true, add_top (hashed h new hash) slot new)
      → Joined
  unfolding first_seen lookup
  first_row c small row fresh own absent inserted =
      let v = hashed h new hash in
      let group : Group = record { top = new; sibs = [] } in
      let own_hash : (v.nodes new).hash_val ≡ hash =
        ap (λ (n : Node). n.hash_val)
          (update-same h.nodes new (record (h.nodes new) { hash_val = hash })) in
      let hit : matches v.nodes hash eq group ≡ true =
        rw (own_hash, own, eq→== hash hash refl) refl in
      (
        inr (ap (first_seen valid) absent),
        (
          add_top v slot new,
          group ∷ groups slot,
          inserted,
          inl (absent, refl),
          kept_Hashes (add_top v slot new) (add_top-SameHash v slot new),
          add_top-Chains v groups slot new (hashed-Chains h groups new hash fresh c) small row
              fresh,
          lookup-SameHash v.nodes (add_top v slot new).nodes hash eq (group ∷ groups slot)
                (add_top-SameHash v slot new)
              ∙ rw hit (ap (with_new new) (sym absent)),
        ),
      )

  -- A key that has the group `g`.
  further_row :
      (pre : List Group) (g : Group) (post : List Group)
      → Chains h groups
      → slot < h.slot_cap
      → IsRow new
      → ((j : ℕ) → NotIn new (rows (groups j)))
      → groups slot ≡ pre ++ g ∷ post
      → lookup (hashed h new hash).nodes hash eq pre ≡ []
      → matches (hashed h new hash).nodes hash eq g ≡ true
      → lookup h.nodes hash eq (groups slot) ≡ g.top ∷ g.sibs
      → (unique ≡ false) ⊎ (first_seen valid (lookup h.nodes hash eq (groups slot)) ≡ 0)
      → insert turns unique valid eq hash h new
        ≡ some (true, add_sibling (hashed h new hash) g.top new)
      → Joined
  unfolding lookup
  further_row pre g post c small row fresh parts before hit found why inserted =
      let v = hashed h new hash in
      (
        why,
        (
          add_sibling v g.top new,
          pre ++ with_row g new ∷ post,
          inserted,
          inr (pre, g, post, found, parts, refl),
          kept_Hashes (add_sibling v g.top new) (add_sibling-SameHash v g.top new),
          add_sibling-Chains v groups slot pre g post new (hashed-Chains h groups new hash fresh c)
              small parts row fresh,
          lookup-SameHash v.nodes (add_sibling v g.top new).nodes hash eq
                (pre ++ with_row g new ∷ post) (add_sibling-SameHash v g.top new)
              ∙ lookup-before v.nodes hash eq pre (with_row g new ∷ post) before
              ∙ rw hit (ap (with_new new) (sym found)),
        ),
      )

  -- `xdb_hash_add` of a row id that is not in the index, when no growth is needed and the walks have a
  -- turn for each row: in a unique index it is refused exactly when a row of its key is seen by the
  -- connection, and then the chains stay; else the chains stay valid, those of the other slots are
  -- unchanged, and so is that of its slot but for the row, which joins the rows of its key or is put in
  -- front with a key of its own; it has the hash value, and those of the other rows are unchanged.
  pub insert-Chains :
      Chains h groups
      → slot < h.slot_cap
      → IsRow new
      → ((j : ℕ) → NotIn new (rows (groups j)))
      → eq new ≡ true
      → length (groups slot) < turns
      → All (λ g. length g.sibs < turns) (groups slot)
      → Refused ⊎ Joined
  unfolding insert first_seen Option.bind
  insert-Chains c small row fresh own lt lts =
      let v = hashed h new hash in
      let cv = hashed-Chains h groups new hash fresh c in
      let same =
        lookup-same h.nodes v.nodes hash eq (groups slot)
          (hashed-same h new hash (rows (groups slot)) (fresh slot)) in
      elim (find_top-Tops turns turns v.nodes hash eq _ _ (groups slot) lt lts
        (cv.tops slot small)) [
          | inl (e, none_found) ↦
              inr (first_row c small row fresh own (sym same ∙ none_found) (rw e refl))
          | inr (g, e, found, top, sibs, short, (pre, post, parts, before, hit)) ↦
              let look = sym same ∙ found in
              let not_zero = ne→== g.top 0 (omega (arith, top.0)) in
              let seen = find_valid-Sibs turns v.nodes valid 0 g.top _ g.sibs short sibs in
              let join = further_row pre g post c small row fresh parts before hit look in
              elim (Bool-cases unique) [
                | inl u ↦ elim (Bool-cases (valid g.top)) [
                  | inl t ↦
                      let is_top : first_seen valid (lookup h.nodes hash eq (groups slot)) ≡ g.top =
                        ap (first_seen valid) look ∙ rw t refl in
                      inl (
                        u,
                        λ z. omega (arith, top.0, sym is_top ∙ z),
                        rw (e, not_zero, u, t) refl,
                        cv,
                      )
                  | inr f ↦
                      let is_sib : first_seen valid (lookup h.nodes hash eq (groups slot))
                          ≡ first_seen valid g.sibs =
                        ap (first_seen valid) look ∙ rw f refl in
                      elim (Bool-cases (first_seen valid g.sibs == 0)) [
                        | inl z ↦ inr (
                            join (inr (is_sib ∙ ==→eq _ 0 z))
                              (rw (e, not_zero, u, f, seen, z) refl))
                        | inr z ↦ inl (
                          u,
                          λ y. ==→ne _ 0 z (sym is_sib ∙ y),
                          rw (e, not_zero, u, f, seen, z) refl,
                          cv,
                        )
                      ]
                ]
                | inr u ↦ inr (join (inl u) (rw (e, not_zero, u) refl))
              ]
        ]
