-- ===== src/Bmp/Leaf/Laws.antt =====
-- `xdb_lv2bmp_get` after each operation, and `__xdb_lv2bmp_iterate` against it.
use cross_db.Base.{
  ℕ, ◌+◌, ◌*◌, ◌/◌, ◌%◌, ◌<◌, ◌≡◌, ◌∙◌, true, false, ◌==◌, if◌then◌else◌, [], map, arith,
}
use native.Mathlib.Nat.{add-zero}
use cross_db.Bmp.Word.{bit, clr_bit, bit-set_bit, bit-clr_bit, bit-zero, set_bit-zero, eq-zero-bit}
use cross_db.Bmp.Scan.{scan, word_ids, word_ids-eq-scan, scan-shift, scan-none, for_each-scan}
use cross_db.Bmp.Leaf.{Leaf, id4, id5, init, set, clr, get, iterate}

-- After `xdb_lv2bmp_init` no bit is set, whatever the words held.
pub get-init : (l : Leaf) (j : ℕ) → get (init l) j ≡ false
unfolding get init
get-init l j = ground (arith, bit-zero (id4 j))

-- After `xdb_lv2bmp_set` of a bit (taken modulo 4096), `xdb_lv2bmp_get` finds that bit set and every
-- other bit as it was.
pub get-set :
    (l : Leaf) (i j : ℕ) → get (set l i) j ≡ (if j % 4096 == i % 4096 then true else get l j)
unfolding get set
get-set l i j = ground (
  arith,
  bit-set_bit (id4 i) (id4 j) l.bmp4,
  bit-set_bit (id5 i) (id5 j) (l.bmp5 (id4 i)),
  bit-set_bit (id5 i) (id5 j) 0,
  bit-zero (id5 j),
  set_bit-zero (id5 i),
)

-- After `xdb_lv2bmp_clr` of a bit (taken modulo 4096), `xdb_lv2bmp_get` finds that bit not set and
-- every other bit as it was.
pub get-clr :
    (l : Leaf) (i j : ℕ) → get (clr l i) j ≡ (if j % 4096 == i % 4096 then false else get l j)
unfolding get clr
get-clr l i j = ground (
  arith,
  bit-clr_bit (id4 i) (id4 j) l.bmp4,
  bit-clr_bit (id5 i) (id5 j) (l.bmp5 (id4 i)),
  eq-zero-bit (clr_bit (l.bmp5 (id4 i)) (id5 i)) (id5 j),
)

iterate_block :
    (l : Leaf) (bid a : ℕ)
    → a < 64
    → bit l.bmp4 a ≡ true
    → map (λ c. bid + a * 64 + c) (word_ids (l.bmp5 a))
      ≡ map (λ x. bid + x) (scan (get l) (a * 64) 64)
unfolding get
iterate_block l bid a h t = rw word_ids-eq-scan (
    scan-shift (bit (l.bmp5 a)) (get l) bid (a * 64) 0 64 (λ x u v.
      let e : (a * 64 + x) / 64 % 64 ≡ a = omega arith in
      let e' : (a * 64 + x) % 64 ≡ x = omega arith in rw (e, e', t))
    ∙ rw add-zero)

skipped_block : (l : Leaf) (a : ℕ) → a < 64 → bit l.bmp4 a ≡ false → scan (get l) (a * 64) 64 ≡ []
unfolding get
skipped_block l a h t =
    scan-none (get l) (a * 64) 64 λ x u v. let e : x / 64 % 64 ≡ a = omega arith in rw (e, t)

-- `xdb_lv2bmp_iterate` calls back with exactly the bits that `xdb_lv2bmp_get` finds set, each once,
-- in ascending order.
pub iterate-eq-scan :
    (l : Leaf) (bid : ℕ) → iterate l bid ≡ map (λ x. bid + x) (scan (get l) 0 4096)
unfolding iterate
iterate-eq-scan l bid = rw word_ids-eq-scan (
    for_each-scan (bit l.bmp4) (get l) _ bid 64 0 64 (λ a u v. iterate_block l bid a v)
      (λ a u v. skipped_block l a v))
