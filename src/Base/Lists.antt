-- ===== src/Base/Lists.antt =====
-- Lists measured and indexed by native numbers, under the library's names; membership of numbers.
use Prim.Native.Nat.{ℕ, suc, ◌+◌}
use mathlib.Core.Path.{◌≡◌, refl, sym}
use mathlib.Core.Logic.{◌≢◌}
use mathlib.Core.List.{List, [], ◌∷◌, ◌++◌}
use native.Mathlib.Omega.{arith}
use cross_db.Base.Tests.{◌==◌, if◌then◌else◌, eq→==, ne→==}

module _ {ℓ} {A : Type ℓ} where
  abbrev pub length : List A → ℕ
  length [] = 0
  length (x ∷ xs) = suc (length xs)

  pub length-append : (xs ys : List A) → length (xs ++ ys) ≡ length xs + length ys
  length-append [] ys = omega arith
  length-append (x ∷ xs) ys = omega (arith, length-append xs ys)

  -- An array as a function of the index, with one entry changed.
  abbrev pub update : (ℕ → A) → ℕ → A → ℕ → A
  update f i v j = if j == i then v else f j

pub update-same {ℓ} : {A : Type ℓ} (f : ℕ → A) (i : ℕ) (v : A) → update f i v i ≡ v
update-same f i v = rw (eq→== i i refl) refl

pub update-other {ℓ} : {A : Type ℓ} (f : ℕ → A) (i j : ℕ) (v : A) → j ≢ i → update f i v j ≡ f j
update-other f i j v n = rw (ne→== j i n) refl

-- The last element, or `d` of an empty list.
abbrev pub last_or {ℓ} : {A : Type ℓ} → A → List A → A
last_or d [] = d
last_or d (x ∷ xs) = last_or x xs

abbrev pub All {ℓ κ} : {A : Type ℓ} → (A → Type κ) → List A → Type κ
All P [] = Unit
All P (x ∷ xs) = P x × All P xs

pub All-append {ℓ κ} :
    {A : Type ℓ} (P : A → Type κ) (xs ys : List A) → All P xs → All P ys → All P (xs ++ ys)
All-append P [] ys hx hy = hy
All-append P (x ∷ xs) ys hx hy = (hx.0, All-append P xs ys hx.1 hy)

pub All-left {ℓ κ} : {A : Type ℓ} (P : A → Type κ) (xs ys : List A) → All P (xs ++ ys) → All P xs
All-left P [] ys h = tt
All-left P (x ∷ xs) ys h = (h.0, All-left P xs ys h.1)

pub All-right {ℓ κ} : {A : Type ℓ} (P : A → Type κ) (xs ys : List A) → All P (xs ++ ys) → All P ys
All-right P [] ys h = h
All-right P (x ∷ xs) ys h = All-right P xs ys h.1

pub All-map {ℓ κ} :
    {A : Type ℓ} (P Q : A → Type κ) (xs : List A) → ((x : A) → P x → Q x) → All P xs → All Q xs
All-map P Q [] f h = tt
All-map P Q (x ∷ xs) f h = (f x h.0, All-map P Q xs f h.1)

abbrev pub NotIn : ℕ → List ℕ → Type 0
NotIn x = All (λ y. x ≢ y)

-- No number stands twice.
abbrev pub Distinct : List ℕ → Type 0
Distinct [] = Unit
Distinct (x ∷ xs) = NotIn x xs × Distinct xs

pub Distinct-right : (xs ys : List ℕ) → Distinct (xs ++ ys) → Distinct ys
Distinct-right [] ys h = h
Distinct-right (x ∷ xs) ys h = Distinct-right xs ys h.1

-- Moving an element to the end.
pub NotIn-move :
    (z r : ℕ) (xs ys : List ℕ) → NotIn z (xs ++ r ∷ ys) → NotIn z ((xs ++ ys) ++ r ∷ [])
NotIn-move z r xs ys h =
    All-append _ (xs ++ ys) (r ∷ [])
      (All-append _ xs ys (All-left _ xs (r ∷ ys) h) (All-right _ xs (r ∷ ys) h).1)
      ((All-right _ xs (r ∷ ys) h).0, tt)

pub NotIn-middle : (r : ℕ) (xs ys : List ℕ) → Distinct (xs ++ r ∷ ys) → NotIn r (xs ++ ys)
NotIn-middle r [] ys h = h.0
NotIn-middle r (x ∷ xs) ys h =
    (λ e. (All-right _ xs (r ∷ ys) h.0).0 (sym e), NotIn-middle r xs ys h.1)

pub Distinct-snoc : (r : ℕ) (xs : List ℕ) → NotIn r xs → Distinct xs → Distinct (xs ++ r ∷ [])
Distinct-snoc r [] n h = (tt, tt)
Distinct-snoc r (x ∷ xs) n h =
    (All-append _ xs (r ∷ []) h.0 ((λ e. n.0 (sym e)), tt), Distinct-snoc r xs n.1 h.1)

Distinct-without : (r : ℕ) (xs ys : List ℕ) → Distinct (xs ++ r ∷ ys) → Distinct (xs ++ ys)
Distinct-without r [] ys h = h.1
Distinct-without r (x ∷ xs) ys h = (
  All-append _ xs ys (All-left _ xs (r ∷ ys) h.0) (All-right _ xs (r ∷ ys) h.0).1,
  Distinct-without r xs ys h.1,
)

pub Distinct-move :
    (r : ℕ) (xs ys : List ℕ) → Distinct (xs ++ r ∷ ys) → Distinct ((xs ++ ys) ++ r ∷ [])
Distinct-move r xs ys h =
    Distinct-snoc r (xs ++ ys) (NotIn-middle r xs ys h) (Distinct-without r xs ys h)

pub All-map₂ {ℓ κ ι μ} :
    {A : Type ℓ} (P : A → Type κ) (Q : A → Type ι) (R : A → Type μ) (xs : List A)
    → ((x : A) → P x → Q x → R x)
    → All P xs
    → All Q xs
    → All R xs
All-map₂ P Q R [] f h k = tt
All-map₂ P Q R (x ∷ xs) f h k = (f x h.0 k.0, All-map₂ P Q R xs f h.1 k.1)
