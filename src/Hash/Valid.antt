-- ===== src/Hash/Valid.antt =====
-- The invariant of the hash index, and how its rows change when one comes in.
use cross_db.Base.{
  ℕ, ◌+◌, ◌^◌, ◌<◌, ◌≡◌, ◌≢◌, sym, ap, ◌∙◌, ◌==◌, List, [], ◌∷◌, ◌++◌, All, All-map₂, NotIn,
  Distinct, update, subst, Bool-cases, inl, inr, ==→eq, ==→ne, update-same, update-other,
}
use cross_db.Hash.{Hash}
use cross_db.Hash.Chains.{Group, rows, Tops}

-- Each slot heads the chain of its groups, and no row stands twice, in a chain or in two.
pub record Chains (h : Hash) (groups : ℕ → List Group) : Type 0 where
  pub tops : (k : ℕ) → k < h.slot_cap → Tops h.nodes (2 ^ 31 + k) (h.slots k) (groups k)
  pub distinct : (k : ℕ) → Distinct (rows (groups k))
  pub apart : (j k : ℕ) → j ≢ k → All (λ x. NotIn x (rows (groups k))) (rows (groups j))

All-insert {ℓ} :
    (P : ℕ → Type ℓ) (new : ℕ) (xs ys : List ℕ) → P new → All P (xs ++ ys) → All P (xs ++ new ∷ ys)
All-insert P new [] ys p h = (p, h)
All-insert P new (x ∷ xs) ys p h = (h.0, All-insert P new xs ys p h.1)

Distinct-insert :
    (new : ℕ) (xs ys : List ℕ)
    → NotIn new (xs ++ ys)
    → Distinct (xs ++ ys)
    → Distinct (xs ++ new ∷ ys)
Distinct-insert new [] ys n d = (n, d)
Distinct-insert new (x ∷ xs) ys n d =
    (All-insert (λ y. x ≢ y) new xs ys (λ e. n.0 (sym e)) d.0, Distinct-insert new xs ys n.1 d.1)

-- The rows of the slot `k` with a new one among them.
module _ (groups : ℕ → List Group) (k new : ℕ) (gs : List Group) (xs ys : List ℕ)
    (old : rows (groups k) ≡ xs ++ ys) (grown : rows gs ≡ xs ++ new ∷ ys)
    (fresh : (j : ℕ) → NotIn new (rows (groups j))) where
  abbrev pub groups_after : ℕ → List Group
  groups_after = update groups k gs

  at_slot : rows (groups_after k) ≡ xs ++ new ∷ ys
  at_slot = ap rows (update-same groups k gs) ∙ grown

  elsewhere : (j : ℕ) → j ≢ k → rows (groups_after j) ≡ rows (groups j)
  elsewhere j n = ap rows (update-other groups k j gs n)

  pub after-Distinct :
      ((j : ℕ) → Distinct (rows (groups j))) → (j : ℕ) → Distinct (rows (groups_after j))
  after-Distinct d j = elim (Bool-cases (j == k)) [
    | inl e ↦
        subst (λ (i : ℕ). Distinct (rows (groups_after i))) (sym (==→eq j k e))
          (subst Distinct (sym at_slot) (
            Distinct-insert new xs ys (subst (NotIn new) old (fresh k)) (subst Distinct old (d k))))
    | inr e ↦ subst Distinct (sym (elsewhere j (==→ne j k e))) (d j)
  ]

  from_slot :
      (i : ℕ)
      → i ≢ k
      → ((a b : ℕ) → a ≢ b → All (λ x. NotIn x (rows (groups b))) (rows (groups a)))
      → All (λ x. NotIn x (rows (groups_after i))) (rows (groups_after k))
  from_slot i n apart =
      subst (λ zs. All (λ x. NotIn x zs) (rows (groups_after k))) (sym (elsewhere i n))
        (subst (All (λ x. NotIn x (rows (groups i)))) (sym at_slot) (
          All-insert _ new xs ys (fresh i)
            (subst (All (λ x. NotIn x (rows (groups i)))) old (apart k i (λ e. n (sym e))))))

  to_slot :
      (j : ℕ)
      → j ≢ k
      → ((a b : ℕ) → a ≢ b → All (λ x. NotIn x (rows (groups b))) (rows (groups a)))
      → All (λ x. NotIn x (rows (groups_after k))) (rows (groups_after j))
  to_slot j n apart = subst (All (λ x. NotIn x (rows (groups_after k)))) (sym (elsewhere j n)) (
      All-map₂ (λ x. NotIn x (rows (groups k))) (λ x. new ≢ x) _ (rows (groups j))
        (λ x out other.
          subst (NotIn x) (sym at_slot)
            (All-insert (λ y. x ≢ y) new xs ys (λ e. other (sym e)) (subst (NotIn x) old out)))
        (apart j k n) (fresh j))

  pub after-Apart :
      ((a b : ℕ) → a ≢ b → All (λ x. NotIn x (rows (groups b))) (rows (groups a)))
      → (a b : ℕ) → a ≢ b
      → All (λ x. NotIn x (rows (groups_after b))) (rows (groups_after a))
  after-Apart apart a b n = elim (Bool-cases (a == k)) [
    | inl e ↦
        let is_k = ==→eq a k e in
        subst (λ (i : ℕ). All (λ x. NotIn x (rows (groups_after b))) (rows (groups_after i)))
          (sym is_k) (from_slot b (λ m. n (is_k ∙ sym m)) apart)
    | inr e ↦ elim (Bool-cases (b == k)) [
      | inl f ↦
          subst (λ (i : ℕ). All (λ x. NotIn x (rows (groups_after i))) (rows (groups_after a)))
            (sym (==→eq b k f)) (to_slot a (==→ne a k e) apart)
      | inr f ↦
          subst (λ zs. All (λ x. NotIn x zs) (rows (groups_after a)))
            (sym (elsewhere b (==→ne b k f)))
            (subst (All (λ x. NotIn x (rows (groups b)))) (sym (elsewhere a (==→ne a k e)))
              (apart a b n))
    ]
  ]
