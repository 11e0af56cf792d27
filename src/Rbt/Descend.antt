-- ===== src/Rbt/Descend.antt =====
-- The descent of `xdb_rbtree_add`, and where the new row comes in the order.
use Prim.Native.Nat.{Ordering}
use cross_db.Base.{
  ℕ, suc, ◌≤◌, ◌≡◌, refl, sym, ap, ◌∙◌, Bool, true, ◌⊎◌, inl, inr, List, [], ◌∷◌, ◌++◌, arith, leb,
  if◌then◌else◌, All, All-left, All-right,
}
use cross_db.Rbt.Tree.{Tree, tip, bin, rows}

-- A row is put into the order before the first row that does not compare as less.
abbrev pub place : (ℕ → Ordering) → ℕ → List ℕ → List ℕ
place cmp z [] = z ∷ []
place cmp z (k ∷ ks) = elim (cmp k) [ Ordering.gt ↦ k ∷ place cmp z ks | _ ↦ z ∷ k ∷ ks ]

-- The rows that the new row is behind come first, and none has its key.
abbrev pub Parted : (ℕ → Ordering) → List ℕ → Type 0
Parted cmp [] = Unit
Parted cmp (k ∷ ks) =
    ((cmp k ≡ Ordering.gt) ⊎ All (λ j. cmp j ≡ Ordering.lt) (k ∷ ks)) × Parted cmp ks

module _ (cmp : ℕ → Ordering) (z : ℕ) where
  place-before :
      (xs ys : List ℕ) (k : ℕ)
      → cmp k ≡ Ordering.lt
      → place cmp z (xs ++ k ∷ ys) ≡ place cmp z xs ++ k ∷ ys
  place-before [] ys k e = rw e refl
  place-before (x ∷ xs) ys k e = ground (arith, place-before xs ys k e)

  all_gt :
      (xs ys : List ℕ) (k : ℕ)
      → Parted cmp (xs ++ k ∷ ys)
      → cmp k ≡ Ordering.gt
      → All (λ j. cmp j ≡ Ordering.gt) xs
  all_gt [] ys k p e = tt
  all_gt (x ∷ xs) ys k p e = elim p.0 [
    | inl g ↦ (g, all_gt xs ys k p.1 e)
    | inr l ↦ absurd (cc (e, (All-right (λ j. cmp j ≡ Ordering.lt) xs (k ∷ ys) l.1).0))
  ]

  place-behind :
      (xs ys : List ℕ) (k : ℕ)
      → All (λ j. cmp j ≡ Ordering.gt) xs
      → cmp k ≡ Ordering.gt
      → place cmp z (xs ++ k ∷ ys) ≡ xs ++ k ∷ place cmp z ys
  place-behind [] ys k h e = rw e refl
  place-behind (x ∷ xs) ys k h e = rw h.0 (ap (λ v. x ∷ v) (place-behind xs ys k h.1 e))

  Parted-left : (xs ys : List ℕ) → Parted cmp (xs ++ ys) → Parted cmp xs
  Parted-left [] ys p = tt
  Parted-left (x ∷ xs) ys p = (
    elim p.0 [ inl g ↦ inl g | inr l ↦ inr (All-left (λ j. cmp j ≡ Ordering.lt) (x ∷ xs) ys l) ],
    Parted-left xs ys p.1,
  )

  Parted-right : (xs ys : List ℕ) → Parted cmp (xs ++ ys) → Parted cmp ys
  Parted-right [] ys p = p
  Parted-right (x ∷ xs) ys p = Parted-right xs ys p.1

  pub Parted-cut :
      (ls rs : List ℕ)
      → All (λ j. cmp j ≡ Ordering.gt) ls
      → All (λ j. cmp j ≡ Ordering.lt) rs
      → Parted cmp (ls ++ rs)
  Parted-cut [] [] g l = tt
  Parted-cut [] (r ∷ rs) g l = (inr l, Parted-cut [] rs tt l.1)
  Parted-cut (k ∷ ls) rs g l = (inl g.0, Parted-cut ls rs g.1 l)

  pub place-cut :
      (ls rs : List ℕ)
      → All (λ j. cmp j ≡ Ordering.gt) ls
      → All (λ j. cmp j ≡ Ordering.lt) rs
      → place cmp z (ls ++ rs) ≡ ls ++ z ∷ rs
  place-cut [] [] g l = refl
  place-cut [] (r ∷ rs) g l = rw l.0 refl
  place-cut (k ∷ ls) rs g l = rw g.0 (ap (λ v. k ∷ v) (place-cut ls rs g.1 l))

  -- The tree with the new row, before it is repaired.
  abbrev pub ins : Tree → Tree
  ins tip = bin true tip z tip
  ins (bin c l k r) = elim (cmp k) [ Ordering.lt ↦ bin c (ins l) k r | _ ↦ bin c l k (ins r) ]

  rows-ins_at :
      (c : Bool) (l : Tree) (k : ℕ) (r : Tree) (o : Ordering)
      → cmp k ≡ o
      → Parted cmp (rows l ++ k ∷ rows r)
      → (Parted cmp (rows l) → rows (ins l) ≡ place cmp z (rows l))
      → (Parted cmp (rows r) → rows (ins r) ≡ place cmp z (rows r))
      → rows (elim o [ Ordering.lt ↦ bin c (ins l) k r | _ ↦ bin c l k (ins r) ])
        ≡ place cmp z (rows l ++ k ∷ rows r)
  rows-ins_at c l k r Ordering.lt e p lower higher =
      ap (λ v. v ++ k ∷ rows r) (lower (Parted-left (rows l) (k ∷ rows r) p))
      ∙ sym (place-before (rows l) (rows r) k e)
  rows-ins_at c l k r Ordering.gt e p lower higher =
      ap (λ v. rows l ++ k ∷ v) (higher (Parted-right (rows l) (k ∷ rows r) p).1)
      ∙ sym (place-behind (rows l) (rows r) k (all_gt (rows l) (rows r) k p e) e)
  rows-ins_at c l k r Ordering.eq e p lower higher = elim (Parted-right (rows l) (k ∷ rows r) p).0 [
    | inl g ↦ absurd (cc (g, e))
    | inr h ↦ absurd (cc (h.0, e))
  ]

  pub rows-ins : (u : Tree) → Parted cmp (rows u) → rows (ins u) ≡ place cmp z (rows u)
  rows-ins tip p = refl
  rows-ins (bin c l k r) p = rows-ins_at c l k r (cmp k) refl p (rows-ins l) (rows-ins r)

-- The nodes on the longest way down.
abbrev pub max : ℕ → ℕ → ℕ
max a b = if leb a b then b else a

abbrev pub depth : Tree → ℕ
depth tip = 0
depth (bin c l k r) = suc (max (depth l) (depth r))

pub max_left : (a b : ℕ) → a ≤ max a b
max_left a b = ground arith

pub max_right : (a b : ℕ) → b ≤ max a b
max_right a b = ground arith
