-- ===== src/Bmp/Leaf/Each.antt =====
-- `xdb_lv2bmp_iterate` calls back with each bit once.
use cross_db.Base.{
  ℕ, zero, suc, ◌+◌, ◌≤◌, ◌≢◌, sym, Bool, List, [], ◌∷◌, map, All, All-map, NotIn, Distinct,
  Bool-cases, inl, inr, subst, arith,
}
use cross_db.Bmp.Scan.{scan}
use cross_db.Bmp.Leaf.{Leaf, get, iterate}
use cross_db.Bmp.Leaf.Laws.{iterate-eq-scan}

scan-All : (p : ℕ → Bool) (i n : ℕ) → All (λ y. i ≤ y) (scan p i n)
unfolding scan
scan-All p i zero = tt
scan-All p i (suc n) =
    let later =
      All-map (λ y. i + 1 ≤ y) (λ y. i ≤ y) (scan p (i + 1) n) (λ y h. omega arith)
        (scan-All p (i + 1) n) in
    elim (Bool-cases (p i)) [ inl e ↦ rw e (omega arith, later) | inr e ↦ rw e later ]

map-NotIn : (b x : ℕ) (xs : List ℕ) → NotIn x xs → NotIn (b + x) (map (λ y. b + y) xs)
map-NotIn b x [] h = tt
map-NotIn b x (y ∷ ys) h = ((λ e. h.0 (omega (arith, e))), map-NotIn b x ys h.1)

scan-Distinct : (p : ℕ → Bool) (b i n : ℕ) → Distinct (map (λ y. b + y) (scan p i n))
unfolding scan
scan-Distinct p b i zero = tt
scan-Distinct p b i (suc n) = elim (Bool-cases (p i)) [
  | inl e ↦ rw e (
    map-NotIn b i (scan p (i + 1) n) (
        All-map (λ y. i + 1 ≤ y) (λ y. i ≢ y) (scan p (i + 1) n) (λ y h k. omega (arith, h, k))
          (scan-All p (i + 1) n)),
    scan-Distinct p b (i + 1) n,
  )
  | inr e ↦ rw e (scan-Distinct p b (i + 1) n)
]

pub iterate-Distinct : (l : Leaf) (bid : ℕ) → Distinct (iterate l bid)
iterate-Distinct l bid =
    subst Distinct (sym (iterate-eq-scan l bid)) (scan-Distinct (get l) bid 0 4096)
