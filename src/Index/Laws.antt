-- ===== src/Index/Laws.antt =====
-- `xdb_idx_addRow`: what all indexes hold after it.
use mathlib.Core.Bool.{false≢true}
use cross_db.Base.{
  All-map₂, update-same, update-other, ◌≢◌, subst, ℕ, ◌+◌, ◌≡◌, refl, sym, ap, ◌∙◌, Bool, true,
  false, none, some, List, [], ◌∷◌, update, All, NotIn, Distinct, ne→==, eq→==, Option-cases, inl,
  inr,
}
use cross_db.Store.{Row}
use cross_db.Index.{IdxOps, add_row, add_from}

module _ (o : IdxOps) (rid : ℕ) (row : Row) where
  -- An index that is not in the list is left alone.
  add_from-other :
      (i k : ℕ) (ks : List ℕ) (f : ℕ → o.Idx) → NotIn k ks → (add_from o i ks f rid row).1 k ≡ f k
  unfolding add_from
  add_from-other i k [] f n = refl
  add_from-other i k (j ∷ ks) f n = elim (Option-cases (o.add (f j) rid row)) [
    | inl e ↦ rw (add_from, e, ne→== k j n.0) refl
    | inr (x, e) ↦
        rw (add_from, e) (add_from-other (i + 1) k ks (update f j x) n.1 ∙ rw (ne→== k j n.0) refl)
  ]

  accepted :
      (i j : ℕ) (ks : List ℕ) (f : ℕ → o.Idx) (x : o.Idx)
      → o.add (f j) rid row ≡ some x
      → add_from o i (j ∷ ks) f rid row ≡ add_from o (i + 1) ks (update f j x) rid row
  unfolding add_from
  accepted i j ks f x e = rw (add_from, e) refl

  refused :
      (i j : ℕ) (ks : List ℕ) (f : ℕ → o.Idx)
      → o.add (f j) rid row ≡ none
      → (add_from o i (j ∷ ks) f rid row).0 ≡ false
  unfolding add_from
  refused i j ks f e = rw (add_from, e) refl

  add_from-taken :
      (i : ℕ) (ks : List ℕ) (f g : ℕ → o.Idx)
      → Distinct ks
      → All (λ k. g k ≡ f k) ks
      → (add_from o i ks f rid row).0 ≡ true
      → All (λ k. o.add (g k) rid row ≡ some ((add_from o i ks f rid row).1 k)) ks
  add_from-taken i [] f g d same h = tt
  add_from-taken i (j ∷ ks) f g d same h = elim (Option-cases (o.add (f j) rid row)) [
    | inl e ↦ absurd (false≢true (sym (refused i j ks f e) ∙ h))
    | inr (x, e) ↦
        let step = accepted i j ks f x e in
        (
          ap (λ y. o.add y rid row) same.0
              ∙ e
              ∙ ap some (
                  sym (
                    ap (λ (r : Bool × (ℕ → o.Idx)). r.1 j) step
                    ∙ add_from-other (i + 1) j ks (update f j x) d.0
                    ∙ update-same f j x)),
          subst (λ (r : Bool × (ℕ → o.Idx)). All (λ k. o.add (g k) rid row ≡ some (r.1 k)) ks)
              (sym step)
              (add_from-taken (i + 1) ks (update f j x) g d.1
                (All-map₂ (λ k. j ≢ k) (λ k. g k ≡ f k) _ ks
                  (λ k n u. u ∙ sym (update-other f j k x (λ q. n (sym q)))) d.0 same.1)
                (ap (λ (r : Bool × (ℕ → o.Idx)). r.0) (sym step) ∙ h)),
        )
  ]

-- The first index of the table (listed once) keeps the row that it took, whatever the later ones do
-- in `xdb_idx_addRow`: when one of them refuses the row and an error is returned, the recovery loop
-- does not reach the first.
pub add_row-keeps :
    (o : IdxOps) (rid : ℕ) (row : Row) (k : ℕ) (ks : List ℕ) (f : ℕ → o.Idx) (x : o.Idx)
    → NotIn k ks
    → o.add (f k) rid row ≡ some x
    → (add_row o (k ∷ ks) f rid row).1 k ≡ x
unfolding add_row
add_row-keeps o rid row k ks f x n e =
    rw (accepted o rid row 0 k ks f x e)
      (add_from-other o rid row 1 k ks (update f k x) n ∙ rw (eq→== k k refl) refl)

-- When `xdb_idx_addRow` returns XDB_OK, each index of the table (they are listed once each) has taken
-- the row, from the state it was in.
pub add_row-ok :
    (o : IdxOps) (rid : ℕ) (row : Row) (ks : List ℕ) (f : ℕ → o.Idx)
    → Distinct ks
    → (add_row o ks f rid row).0 ≡ true
    → All (λ k. o.add (f k) rid row ≡ some ((add_row o ks f rid row).1 k)) ks
unfolding add_row
add_row-ok o rid row ks f d h = add_from-taken o rid row 0 ks f f d (All-refl ks) h
  where
    All-refl : (xs : List ℕ) → All (λ k. f k ≡ f k) xs
    All-refl [] = tt
    All-refl (x ∷ xs) = (refl, All-refl xs)
