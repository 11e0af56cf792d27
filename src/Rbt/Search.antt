-- ===== src/Rbt/Search.antt =====
-- `xdb_rb_find`
use Prim.Native.Nat.{Ordering}
use cross_db.Base.{
  ℕ, zero, suc, ◌+◌, ◌*◌, ◌^◌, Bool, ◌≤◌, ◌<◌, ◌≡◌, ◌≢◌, refl, sym, ap, ◌⊎◌, inl, inr, some, List,
  [], ◌∷◌, ◌++◌, arith, subst, length, eq→==, ne→==, All, All-left, All-right, All-append, All-map,
}
use cross_db.Rbt.{Rbt, RbNode}
use cross_db.Rbt.Query.{find}
use cross_db.Rbt.Tree.{Tree, tip, bin, rows, Rep, count, at_self}
use cross_db.Rbt.Ended.{IsTree}
use cross_db.Rbt.Descend.{depth, max_left, max_right}
use cross_db.Rbt.Balance.{depth-lt}
use cross_db.Rbt.Around.{occurs, count-occurs}

-- The rows that the values are behind come first, then those that are equal, then those before them.
abbrev pub Ordered : (ℕ → Ordering) → List ℕ → Type 0
Ordered cmp [] = Unit
Ordered cmp (k ∷ ks) =
    (cmp k ≡ Ordering.lt → All (λ j. cmp j ≡ Ordering.lt) ks)
    × (cmp k ≢ Ordering.gt → All (λ j. cmp j ≢ Ordering.gt) ks)
    × Ordered cmp ks

module _ (cmp : ℕ → Ordering) where
  Ordered-left : (xs ys : List ℕ) → Ordered cmp (xs ++ ys) → Ordered cmp xs
  Ordered-left [] ys o = tt
  Ordered-left (x ∷ xs) ys o = (
    (λ e. All-left (λ j. cmp j ≡ Ordering.lt) xs ys (o.0 e)),
    (λ e. All-left (λ j. cmp j ≢ Ordering.gt) xs ys (o.1 e)),
    Ordered-left xs ys o.2,
  )

  Ordered-right : (xs ys : List ℕ) → Ordered cmp (xs ++ ys) → Ordered cmp ys
  Ordered-right [] ys o = o
  Ordered-right (x ∷ xs) ys o = Ordered-right xs ys o.2

  -- The rows before one that the values are behind.
  all_before :
      (xs ys : List ℕ) (k : ℕ)
      → Ordered cmp (xs ++ k ∷ ys)
      → cmp k ≡ Ordering.gt
      → All (λ j. cmp j ≢ Ordering.eq) xs
  all_before [] ys k o e = tt
  all_before (x ∷ xs) ys k o e = (
    (λ i. (All-right (λ j. cmp j ≢ Ordering.gt) xs (k ∷ ys) (o.1 (λ g. cc (g, i)))).0 e),
    all_before xs ys k o.2 e,
  )

  -- What the search finds in the tree: no row is equal, or the one it gives is.
  abbrev pub Answer : Tree → ℕ → Type 0
  Answer u x =
      ((x ≡ 0) × All (λ j. cmp j ≢ Ordering.eq) (rows u))
      ⊎ ((cmp x ≡ Ordering.eq) × (1 ≤ count x u))

  module _ (h : ℕ → RbNode) where
    abbrev Searched : ℕ → ℕ → ℕ → Ordering → Tree → Type 0
    Searched turns x l last u =
        (y : ℕ) × (above : ℕ) × (o : Ordering) × (find turns h cmp x l last ≡ some (y, above, o))
        × Answer u y

    search_at :
        (turns x p l : ℕ) (last o : Ordering) (c : Bool) (a : Tree) (k : ℕ) (b : Tree)
        → cmp k ≡ o
        → Rep h p x (bin c a k b)
        → Ordered cmp (rows a ++ k ∷ rows b)
        → Searched turns (h k).rb_left k Ordering.lt a
        → Searched turns (h k).rb_right k Ordering.gt b
        → Searched (suc turns) x l last (bin c a k b)
    unfolding find
    search_at turns x p l last Ordering.eq c a k b e rep ord lower higher = (
      k,
      k,
      Ordering.eq,
      subst (λ v. find (suc turns) h cmp v l last ≡ some (k, k, Ordering.eq)) (sym rep.0)
          (rw (ne→== k 0 rep.1, e) refl),
      inr (e, omega (arith, at_self k)),
    )
    search_at turns x p l last Ordering.lt c a k b e rep ord lower higher =
        let (y, above, o, runs, answer) = lower in
        let none_behind : All (λ j. cmp j ≢ Ordering.eq) (k ∷ rows b) = (
          (λ i. cc (e, i)),
          All-map (λ j. cmp j ≡ Ordering.lt) (λ j. cmp j ≢ Ordering.eq) (rows b)
              (λ j g i. cc (g, i)) ((Ordered-right (rows a) (k ∷ rows b) ord).0 e),
        ) in
        (
          y,
          above,
          o,
          subst (λ v. find (suc turns) h cmp v l last ≡ some (y, above, o)) (sym rep.0)
              (rw (ne→== k 0 rep.1, e) runs),
          elim answer [
            | inl n ↦
                inl
                  (n.0, All-append (λ j. cmp j ≢ Ordering.eq) (rows a) (k ∷ rows b) n.1 none_behind)
            | inr n ↦ inr (n.0, omega (arith, n.1))
          ],
        )
    search_at turns x p l last Ordering.gt c a k b e rep ord lower higher =
        let (y, above, o, runs, answer) = higher in
        (
          y,
          above,
          o,
          subst (λ v. find (suc turns) h cmp v l last ≡ some (y, above, o)) (sym rep.0)
              (rw (ne→== k 0 rep.1, e) runs),
          elim answer [
            | inl n ↦ inl (
              n.0,
              All-append (λ j. cmp j ≢ Ordering.eq) (rows a) (k ∷ rows b)
                  (all_before (rows a) (rows b) k ord e) ((λ i. cc (e, i)), n.1),
            )
            | inr n ↦ inr (n.0, omega (arith, n.1))
          ],
        )

    find_in :
        (turns x p l : ℕ) (last : Ordering) (u : Tree)
        → Rep h p x u
        → Ordered cmp (rows u)
        → depth u < turns
        → Searched turns x l last u
    unfolding find
    find_in zero x p l last u rep ord m = absurd (omega arith)
    find_in (suc turns) x p l last tip rep ord m =
        (0, l, last, rw (eq→== x 0 rep) refl, inl (refl, tt))
    find_in (suc turns) x p l last (bin c a k b) rep ord m =
        search_at turns x p l last (cmp k) c a k b refl rep ord
          (find_in turns (h k).rb_left k k Ordering.lt a rep.4
            (Ordered-left (rows a) (k ∷ rows b) ord)
            (omega (arith, m, max_left (depth a) (depth b))))
          (find_in turns (h k).rb_right k k Ordering.gt b rep.5
            (Ordered-right (rows a) (k ∷ rows b) ord).2
            (omega (arith, m, max_right (depth a) (depth b))))

-- `xdb_rb_find` from the root in an index of fewer than 2 ^ k rows, whose rows compare as greater first,
-- then as equal, then as less, with 2 * k turns: it ends, and gives either a row of the index that
-- compares as equal, or NULL, and then no row does.
pub find_lem :
    (turns k : ℕ) (cmp : ℕ → Ordering) (t : Rbt) (xs : List ℕ) (i : IsTree t xs)
    → Ordered cmp xs
    → length xs + 1 < 2 ^ k
    → 2 * k ≤ turns
    → (x : ℕ) × (last : ℕ) × (o : Ordering) × (find turns t.nodes cmp t.rb_root 0 Ordering.eq
        ≡ some (x, last, o))
      × (((x ≡ 0) × All (λ j. cmp j ≢ Ordering.eq) xs)
          ⊎ ((cmp x ≡ Ordering.eq) × (1 ≤ occurs x xs)))
find_lem turns k cmp t xs i ord few enough =
    let u = i.tree in
    let deep : depth u < 2 * k =
      depth-lt u i.height k i.sound i.black
        (subst (λ v. length v + 1 < 2 ^ k) (sym i.in_order) few) in
    let (x, last, o, runs, answer) =
      find_in cmp t.nodes turns t.rb_root 0 0 Ordering.eq u i.held
        (subst (λ v. Ordered cmp v) (sym i.in_order) ord) (omega (arith, deep, enough)) in
    (
      x,
      last,
      o,
      runs,
      elim answer [
        | inl n ↦ inl (n.0, subst (λ v. All (λ j. cmp j ≢ Ordering.eq) v) i.in_order n.1)
        | inr n ↦ inr (n.0, omega (arith, n.1, count-occurs x u, ap (λ v. occurs x v) i.in_order))
      ],
    )
