-- ===== src/Bmp/Leaf/Count.antt =====
-- `count` of `xdb_lv2bmp_t`, kept by `xdb_lv2bmp_set` and `xdb_lv2bmp_clr`.
use cross_db.Base.{
  ℕ, ◌+◌, ◌/◌, ◌%◌, ◌<◌, ◌≤◌, ◌≡◌, refl, sym, ap, ◌∙◌, Bool, true, false, ◌==◌, if◌then◌else◌,
  length, arith, Bool-cases, inl, inr, ==→eq,
}
use cross_db.Bmp.Scan.{scan, scan-ext, scan-none, length-scan-le, length-scan-add}
use cross_db.Bmp.Leaf.{Leaf, init, set, clr, get}
use cross_db.Bmp.Leaf.Laws.{get-init, get-set, get-clr}

-- The number of bits that `xdb_lv2bmp_get` finds set.
abbrev pub members : Leaf → ℕ
members l = length (scan (get l) 0 4096)

count-set :
    (l : Leaf) (i : ℕ) → (set l i).count ≡ (if get l i then l.count else (l.count + 1) % 65536)
unfolding set get
count-set l i = ground arith

count-clr :
    (l : Leaf) (i : ℕ) → (clr l i).count ≡ (if get l i then (l.count + 65535) % 65536 else l.count)
unfolding clr get
count-clr l i = ground arith

-- `get` reads the low twelve bits of the index.
get-low : (l : Leaf) (i : ℕ) → get l (i % 4096) ≡ get l i
unfolding get
get-low l i =
    let e : i % 4096 / 64 % 64 ≡ i / 64 % 64 = omega arith in
    let e' : i % 4096 % 64 ≡ i % 64 = omega arith in rw (e, e')

-- Writing the value that is there.
write_same : (p : ℕ → Bool) (v : Bool) (k x : ℕ) → p k ≡ v → (if x == k then v else p x) ≡ p x
write_same p v k x h = elim (Bool-cases (x == k)) [
  | inl e ↦ rw e (sym h ∙ ap p (sym (==→eq x k e)))
  | inr e ↦ rw e
]

low_set :
    (l : Leaf) (i x : ℕ) → x < 4096 → get (set l i) x ≡ (if x == i % 4096 then true else get l x)
low_set l i x h = let e : x % 4096 ≡ x = omega arith in rw (get-set, e)

low_clr :
    (l : Leaf) (i x : ℕ) → x < 4096 → get (clr l i) x ≡ (if x == i % 4096 then false else get l x)
low_clr l i x h = let e : x % 4096 ≡ x = omega arith in rw (get-clr, e)

-- A copy of the bits of `l` with the bit `k` at `v`.
abbrev with_bit : Leaf → ℕ → Bool → ℕ → Bool
with_bit l k v x = if x == k then v else get l x

members-set :
    (l : Leaf) (i : ℕ) → members (set l i) ≡ (if get l i then members l else members l + 1)
members-set l i =
    ap length
      (scan-ext (get (set l i)) (with_bit l (i % 4096) true) 0 4096 (λ x u v. low_set l i x v))
    ∙ elim (Bool-cases (get l i)) [
      | inl t ↦ rw t (
          ap length
            (scan-ext _ _ 0 4096 λ x u v. write_same (get l) true (i % 4096) x (get-low l i ∙ t)))
      | inr t ↦ rw t (
          length-scan-add (get l) _ (i % 4096) 0 4096 (omega arith) (omega arith) (get-low l i ∙ t)
            (λ y. refl))
    ]

members-clr :
    (l : Leaf) (i : ℕ) → (if get l i then members (clr l i) + 1 else members (clr l i)) ≡ members l
members-clr l i =
    rw
      (ap length
        (scan-ext (get (clr l i)) (with_bit l (i % 4096) false) 0 4096 (λ x u v. low_clr l i x v)))
      (elim (Bool-cases (get l i)) [
        | inl t ↦ rw t (
            sym (
              length-scan-add (with_bit l (i % 4096) false) (get l) (i % 4096) 0 4096 (omega arith)
                (omega arith) (ground arith)
                (λ y. sym (write_same (get l) true (i % 4096) y (get-low l i ∙ t)) ∙ ground arith)))
        | inr t ↦ rw t (
            ap length (
              scan-ext _ _ 0 4096 λ x u v. write_same (get l) false (i % 4096) x (get-low l i ∙ t)))
      ])

-- `count` is the number of set bits.
pub record IsCounted (l : Leaf) : Type 0 where
  pub exact : l.count ≡ members l

init_count : (l : Leaf) → (init l).count ≡ 0
unfolding init
init_count l = refl

pub init-IsCounted : (l : Leaf) → IsCounted (init l)
init-IsCounted l = record {
  exact = init_count l ∙ sym (ap length (scan-none (get (init l)) 0 4096 (λ x u v. get-init l x)));
}

members_le : (l : Leaf) → members l ≤ 4096
members_le l = length-scan-le (get l) 0 4096

-- If `count` is the number of set bits, it is so after `xdb_lv2bmp_set`, too, whether the bit was set
-- before or not.
pub set-IsCounted : (l : Leaf) (i : ℕ) → IsCounted l → IsCounted (set l i)
set-IsCounted l i v = record {
  exact = ground (arith, count-set l i, members-set l i, members_le (set l i));
}

-- If `count` is the number of set bits, it is so after `xdb_lv2bmp_clr`, too, whether the bit was set
-- before or not.
pub clr-IsCounted : (l : Leaf) (i : ℕ) → IsCounted l → IsCounted (clr l i)
clr-IsCounted l i v = record {
  exact = ground (arith, count-clr l i, members-clr l i, members_le l);
}
