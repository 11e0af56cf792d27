-- ===== src/Store/Chain.antt =====
-- The free blocks as a linked list through the rows.
use cross_db.Base.{
  ℕ, ◌<◌, ◌≡◌, refl, sym, ◌≢◌, List, [], ◌∷◌, ◌++◌, update, last_or, NotIn, Distinct, ne→==, eq→==,
}
use cross_db.Store.{Row}

-- From `h` on, the rows link the blocks of the list, up to 0.
abbrev pub Chain : (ℕ → Row) → ℕ → List ℕ → Type 0
Chain rows h [] = h ≡ 0
Chain rows h (x ∷ xs) = (h ≡ x) × (0 < x) × Chain rows (rows x).next xs

-- A write elsewhere keeps the chain.
pub Chain-update :
    (rows : ℕ → Row) (r : ℕ) (v : Row) (h : ℕ) (xs : List ℕ)
    → NotIn r xs
    → Chain rows h xs
    → Chain (update rows r v) h xs
Chain-update rows r v h [] n c = c
Chain-update rows r v h (x ∷ xs) n c =
    (c.0, c.1, rw (ne→== x r (λ e. n.0 (sym e))) (Chain-update rows r v (rows x).next xs n.1 c.2))

pub NotIn-last : (r x : ℕ) (xs : List ℕ) → NotIn r (x ∷ xs) → r ≢ last_or x xs
NotIn-last r x [] n = n.0
NotIn-last r x (y ∷ ys) n = NotIn-last r y ys n.1

-- Linking the block `r`, whose `next` is 0, behind the last one.
pub Chain-snoc :
    (rows : ℕ → Row) (r : ℕ) (h x : ℕ) (xs : List ℕ) (v : Row)
    → Distinct (x ∷ xs)
    → NotIn r (x ∷ xs)
    → 0 < r
    → (rows r).next ≡ 0
    → v.next ≡ r
    → Chain rows h (x ∷ xs)
    → Chain (update rows (last_or x xs) v) h (x ∷ xs ++ r ∷ [])
Chain-snoc rows r h x [] v d n pos z e c =
    (c.0, c.1, (rw (eq→== x x refl) e, pos, rw (ne→== r x n.0) z))
Chain-snoc rows r h x (y ∷ ys) v d n pos z e c = (
  c.0,
  c.1,
  rw (ne→== x (last_or y ys) (NotIn-last x y ys d.0))
      (Chain-snoc rows r (rows x).next y ys v d.1 n.1 pos z e c.2),
)
