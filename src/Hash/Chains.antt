-- ===== src/Hash/Chains.antt =====
-- What the chain of a slot holds: the rows of each key, a top node and its siblings.
use mathlib.Core.List.{append_assoc}
use cross_db.Base.{
  ℕ, ◌^◌, ◌<◌, ◌≡◌, ◌≢◌, refl, sym, ap, ◌∙◌, Bool, ◌==◌, ◌&&◌, if◌then◌else◌, List, [], ◌∷◌, ◌++◌,
  All, All-left, All-right, All-map, All-append, NotIn, Distinct,
}
use cross_db.Hash.{Node}

-- The rows with one key.
pub record Group : Type 0 where
  pub top : ℕ
  pub sibs : List ℕ

abbrev pub rows : List Group → List ℕ
rows [] = []
rows (g ∷ gs) = g.top ∷ g.sibs ++ rows gs

-- A row id.
abbrev pub IsRow : ℕ → Type 0
IsRow r = (0 < r) × (r < 2 ^ 31)

-- From `r` on, the nodes link the siblings; the first has `p` in `prev` and `tag` in `sibling`.
abbrev pub Sibs : (ℕ → Node) → ℕ → ℕ → ℕ → List ℕ → Type 0
Sibs nodes p tag r [] = r ≡ 0
Sibs nodes p tag r (x ∷ xs) =
    (r ≡ x)
    × IsRow x
    × ((nodes x).prev ≡ p)
    × ((nodes x).sibling ≡ tag)
    × Sibs nodes x (2 ^ 31) (nodes x).next xs

-- From `r` on, the nodes link the top nodes of the groups; the first has `p` in `prev`.
abbrev pub Tops : (ℕ → Node) → ℕ → ℕ → List Group → Type 0
Tops nodes p r [] = r ≡ 0
Tops nodes p r (g ∷ gs) =
    (r ≡ g.top)
    × IsRow g.top
    × ((nodes g.top).prev ≡ p)
    × Sibs nodes 0 g.top (nodes g.top).sibling g.sibs
    × Tops nodes g.top (nodes g.top).next gs

-- Nodes that are the same on the rows link them the same way.
pub Sibs-same :
    (nodes nodes' : ℕ → Node) (p tag r : ℕ) (xs : List ℕ)
    → All (λ x. nodes' x ≡ nodes x) xs
    → Sibs nodes p tag r xs
    → Sibs nodes' p tag r xs
Sibs-same nodes nodes' p tag r [] h s = s
Sibs-same nodes nodes' p tag r (x ∷ xs) h s =
    rw h.0 (s.0, s.1, s.2, s.3, Sibs-same nodes nodes' x (2 ^ 31) (nodes x).next xs h.1 s.4)

pub Tops-same :
    (nodes nodes' : ℕ → Node) (p r : ℕ) (gs : List Group)
    → All (λ x. nodes' x ≡ nodes x) (rows gs)
    → Tops nodes p r gs
    → Tops nodes' p r gs
Tops-same nodes nodes' p r [] h t = t
Tops-same nodes nodes' p r (g ∷ gs) h t = rw h.0 (
  t.0,
  t.1,
  t.2,
  Sibs-same nodes nodes' 0 g.top (nodes g.top).sibling g.sibs (All-left _ g.sibs (rows gs) h.1) t.3,
  Tops-same nodes nodes' g.top (nodes g.top).next gs (All-right _ g.sibs (rows gs) h.1) t.4,
)

-- The rows of the key, by the hash value and the comparison of the top node.
abbrev pub matches : (ℕ → Node) → ℕ → (ℕ → Bool) → Group → Bool
matches nodes hash eq g = (nodes g.top).hash_val == hash && eq g.top

unfoldable pub lookup : (ℕ → Node) → ℕ → (ℕ → Bool) → List Group → List ℕ
lookup nodes hash eq [] = []
lookup nodes hash eq (g ∷ gs) =
    if matches nodes hash eq g then g.top ∷ g.sibs else lookup nodes hash eq gs

pub Apart-sym : (xs ys : List ℕ) → All (λ x. NotIn x ys) xs → All (λ y. NotIn y xs) ys
Apart-sym xs [] h = tt
Apart-sym xs (y ∷ ys) h = (
  All-map (λ x. NotIn x (y ∷ ys)) (λ x. y ≢ x) xs (λ x n e. n.0 (sym e)) h,
  Apart-sym xs ys (All-map (λ x. NotIn x (y ∷ ys)) (λ x. NotIn x ys) xs (λ x n. n.1) h),
)

pub Distinct-Apart : (xs ys : List ℕ) → Distinct (xs ++ ys) → All (λ x. NotIn x ys) xs
Distinct-Apart [] ys d = tt
Distinct-Apart (x ∷ xs) ys d = (All-right _ xs ys d.0, Distinct-Apart xs ys d.1)

pub Distinct-left : (xs ys : List ℕ) → Distinct (xs ++ ys) → Distinct xs
Distinct-left [] ys d = tt
Distinct-left (x ∷ xs) ys d = (All-left _ xs ys d.0, Distinct-left xs ys d.1)

pub rows-append : (gs hs : List Group) → rows (gs ++ hs) ≡ rows gs ++ rows hs
rows-append [] hs = refl
rows-append (g ∷ gs) hs =
    ap (λ xs. g.top ∷ g.sibs ++ xs) (rows-append gs hs)
    ∙ ap (λ xs. g.top ∷ xs) (sym (append_assoc g.sibs (rows gs) (rows hs)))

Sibs-IsRow : (nodes : ℕ → Node) (p tag r : ℕ) (xs : List ℕ) → Sibs nodes p tag r xs → All IsRow xs
Sibs-IsRow nodes p tag r [] s = tt
Sibs-IsRow nodes p tag r (x ∷ xs) s = (s.1, Sibs-IsRow nodes x (2 ^ 31) (nodes x).next xs s.4)

pub Tops-IsRow :
    (nodes : ℕ → Node) (p r : ℕ) (gs : List Group) → Tops nodes p r gs → All IsRow (rows gs)
Tops-IsRow nodes p r [] t = tt
Tops-IsRow nodes p r (g ∷ gs) t = (
  t.1,
  All-append IsRow g.sibs (rows gs) (Sibs-IsRow nodes 0 g.top (nodes g.top).sibling g.sibs t.3)
      (Tops-IsRow nodes g.top (nodes g.top).next gs t.4),
)
