-- ===== src/Index/Tests.antt =====
-- A table with two unique indexes, each a list of row ids and keys, and the theorems at it.
use cross_db.Base.{
  ℕ, ◌≡◌, refl, Bool, true, false, none, some, List, [], ◌∷◌, ◌==◌, if◌then◌else◌, arith,
}
use cross_db.Store.{Row}
use cross_db.Index.{IdxOps, add_row, add_from}
use cross_db.Index.Laws.{add_row-keeps}

abbrev key : Row → ℕ
key row = row.payload

abbrev has : ℕ → List (ℕ × ℕ) → Bool
has k [] = false
has k (e ∷ es) = if e.1 == k then true else has k es

abbrev without : ℕ → List (ℕ × ℕ) → List (ℕ × ℕ)
without rid [] = []
without rid (e ∷ es) = let rest = without rid es in if e.0 == rid then rest else e ∷ rest

abbrev unique : IdxOps
unique = record {
  Idx = List (ℕ × ℕ);
  add = λ x rid row. if has (key row) x then none else some ((rid, key row) ∷ x);
  rem = λ x rid row. without rid x;
}

abbrev row : Row
row = record { next = 0; ctrl = 0; payload = 7 }

-- The index 1 has the key already.
abbrev indexes : ℕ → List (ℕ × ℕ)
indexes i = if i == 1 then (4, 7) ∷ [] else []

-- The row is refused, and is left in the index 0.
refused_run : (add_row unique (0 ∷ 1 ∷ []) indexes 5 row).0 ≡ false
unfolding add_row add_from
refused_run = refl

add_row-keeps_example : (add_row unique (0 ∷ 1 ∷ []) indexes 5 row).1 0 ≡ (5, 7) ∷ []
add_row-keeps_example =
    add_row-keeps unique 5 row 0 (1 ∷ []) indexes ((5, 7) ∷ []) (λ e. omega (arith, e), tt) refl
