-- ===== src/Bmp/Scan.antt =====
-- The loops of lib/xdb_bmp.c over the set bits of a word, byte by byte, and the ascending scan of a
-- Boolean function that they amount to.
use cross_db.Base.{
  ℕ, zero, suc, ◌+◌, ◌-◌, ◌*◌, ◌/◌, ◌%◌, ◌<◌, ◌≤◌, ◌≡◌, refl, sym, ap, ◌∙◌, Bool, true, false,
  arith, ◌==◌, ltb, leb, ◌&&◌, ◌||◌, if◌then◌else◌, Bool-cases, inl, inr, List, [], ◌∷◌, ◌++◌, map,
  ==→eq, length,
}
use native.Mathlib.Nat.{add-zero, zero-mul}
use mathlib.Core.List.{append_assoc, map-append}
use Prim.Native.Nat.add
use cross_db.Bmp.Word.{bit, eq-zero-bit}

-- The indices in `[i, i + n)` at which `p` holds, in ascending order.
unfoldable pub scan : (ℕ → Bool) → ℕ → ℕ → List ℕ
scan p i zero = []
scan p i (suc n) = let rest = scan p (i + 1) n in if p i then i ∷ rest else rest

-- A loop body that makes its own calls, run for each of `ids`: the calls, in order.
unfoldable pub for_each : List ℕ → (ℕ → List ℕ) → List ℕ
for_each [] f = []
for_each (x ∷ xs) f = f x ++ for_each xs f

pub for_each-append :
    (xs ys : List ℕ) (f : ℕ → List ℕ) → for_each (xs ++ ys) f ≡ for_each xs f ++ for_each ys f
unfolding for_each
for_each-append [] ys f = refl
for_each-append (x ∷ xs) ys f = simp (for_each-append xs ys f, append_assoc)

pub scan-append : (p : ℕ → Bool) (i n m : ℕ) → scan p i (n + m) ≡ scan p i n ++ scan p (i + n) m
unfolding scan
scan-append p i zero m = rw (add.zero, add-zero)
scan-append p i (suc n) m =
    let ih = scan-append p (i + 1) n m in
    let e : i + suc n ≡ i + 1 + n = omega arith in
    rw (add.suc, e)
      (elim (Bool-cases (p i)) [ inl t ↦ rw t (ap (λ l. i ∷ l) ih) | inr t ↦ rw t ih ])

pub scan-ext :
    (p q : ℕ → Bool) (i n : ℕ) → ((x : ℕ) → i ≤ x → x < i + n → p x ≡ q x) → scan p i n ≡ scan q i n
unfolding scan
scan-ext p q i zero h = refl
scan-ext p q i (suc n) h = ground (
  arith,
  h i (omega arith) (omega arith),
  scan-ext p q (i + 1) n (λ x a b. h x (omega arith) (omega arith)),
)

pub scan-none :
    (p : ℕ → Bool) (i n : ℕ) → ((x : ℕ) → i ≤ x → x < i + n → p x ≡ false) → scan p i n ≡ []
unfolding scan
scan-none p i zero h = refl
scan-none p i (suc n) h = ground (
  arith,
  h i (omega arith) (omega arith),
  scan-none p (i + 1) n (λ x a b. h x (omega arith) (omega arith)),
)

-- Moving a scan by `a`, above the base `b`.
pub scan-shift :
    (p q : ℕ → Bool) (b a i n : ℕ)
    → ((x : ℕ) → i ≤ x → x < i + n → q (a + x) ≡ p x)
    → map (λ x. b + a + x) (scan p i n) ≡ map (λ x. b + x) (scan q (a + i) n)
unfolding scan
scan-shift p q b a i zero h = refl
scan-shift p q b a i (suc n) h =
    let ih = scan-shift p q b a (i + 1) n (λ x u v. h x (omega arith) (omega arith)) in
    let e : a + i + 1 ≡ a + (i + 1) = omega arith in
    let e' : b + a + i ≡ b + (a + i) = omega arith in
    elim (Bool-cases (p i)) [
      | inl t ↦ rw (t, h i (omega arith) (omega arith) ∙ t, e, ih, e')
      | inr t ↦ rw (t, h i (omega arith) (omega arith) ∙ t, e, ih)
    ]

pub scan-move :
    (p q : ℕ → Bool) (a i n : ℕ)
    → ((x : ℕ) → i ≤ x → x < i + n → q (a + x) ≡ p x)
    → map (λ x. a + x) (scan p i n) ≡ scan q (a + i) n
unfolding scan
scan-move p q a i zero h = refl
scan-move p q a i (suc n) h =
    let ih = scan-move p q a (i + 1) n (λ x u v. h x (omega arith) (omega arith)) in
    let e : a + i + 1 ≡ a + (i + 1) = omega arith in
    elim (Bool-cases (p i)) [
      | inl t ↦ rw (t, h i (omega arith) (omega arith) ∙ t, e, ih)
      | inr t ↦ rw (t, h i (omega arith) (omega arith) ∙ t, e, ih)
    ]

-- The bodies of nested loops: if the body at `a` makes the calls of `g` in the block of `m` indices
-- at `a * m`, and `g` is false on the blocks that the outer loop skips, then together they make the
-- calls of `g`; all above the base `b`.
pub for_each-scan :
    (p g : ℕ → Bool) (f : ℕ → List ℕ) (b m i n : ℕ)
    → ((a : ℕ) → i ≤ a → a < i + n → p a ≡ true → f a ≡ map (λ x. b + x) (scan g (a * m) m))
    → ((a : ℕ) → i ≤ a → a < i + n → p a ≡ false → scan g (a * m) m ≡ [])
    → for_each (scan p i n) f ≡ map (λ x. b + x) (scan g (i * m) (n * m))
unfolding scan for_each
for_each-scan p g f b m i zero h k = rw zero-mul
for_each-scan p g f b m i (suc n) h k =
    let ih =
      for_each-scan p g f b m (i + 1) n (λ a u v. h a (omega arith) (omega arith))
        (λ a u v. k a (omega arith) (omega arith)) in
    let e : suc n * m ≡ m + n * m = grind arith in
    let e' : i * m + m ≡ (i + 1) * m = grind arith in
    rw (e, scan-append g (i * m) m (n * m), e', map-append)
      (elim (Bool-cases (p i)) [
        | inl t ↦ rw (t, h i (omega arith) (omega arith) t, ih)
        | inr t ↦ rw (t, k i (omega arith) (omega arith) t, ih)
      ])

-- Membership of a number.
unfoldable pub contains : ℕ → List ℕ → Bool
contains x [] = false
contains x (y ∷ ys) = x == y || contains x ys

pub contains-scan :
    (p : ℕ → Bool) (x i n : ℕ) → contains x (scan p i n) ≡ (leb i x && ltb x (i + n) && p x)
unfolding scan contains
contains-scan p x i zero = ground arith
contains-scan p x i (suc n) = ground (arith, contains-scan p x (i + 1) n)

-- `((uint8_t*)&w)[b]`, on the little-endian word that the code makes first
byte_of : ℕ → ℕ → ℕ
byte_of w zero = w % 256
byte_of w (suc b) = byte_of (w / 256) b

-- `for (i..8) if (v & (1<<i)) body ((b<<3)|i)`, with `n` rounds left
byte_ids : ℕ → ℕ → ℕ → ℕ → List ℕ
byte_ids v b i zero = []
byte_ids v b i (suc n) =
    let rest = byte_ids v b (i + 1) n in if bit v i then (b * 8 + i) ∷ rest else rest

-- `for (b..8) if (byte[b]) …`, with `n` rounds left
ids_from : ℕ → ℕ → ℕ → List ℕ
ids_from w b zero = []
ids_from w b (suc n) =
    let rest = ids_from w (b + 1) n in
    if byte_of w b == 0 then rest else byte_ids (byte_of w b) b 0 8 ++ rest

-- The ids for which the body of the two loops over a word is run, in order.
unfoldable pub word_ids : ℕ → List ℕ
unfolding ids_from byte_ids byte_of bit
word_ids w = ids_from w 0 8

bit-low : (w i : ℕ) → i < 8 → bit (w % 256) i ≡ bit w i
unfolding bit
bit-low w zero h = ground arith
bit-low w (suc zero) h = ground arith
bit-low w (suc (suc zero)) h = ground arith
bit-low w (suc (suc (suc zero))) h = ground arith
bit-low w (suc (suc (suc (suc zero)))) h = ground arith
bit-low w (suc (suc (suc (suc (suc zero))))) h = ground arith
bit-low w (suc (suc (suc (suc (suc (suc zero)))))) h = ground arith
bit-low w (suc (suc (suc (suc (suc (suc (suc zero))))))) h = ground arith
bit-low w (suc (suc (suc (suc (suc (suc (suc (suc i)))))))) h = absurd (omega arith)

eighth : (w : ℕ) → w / 2 / 2 / 2 / 2 / 2 / 2 / 2 / 2 ≡ w / 256
eighth w = omega arith

bit-high : (w k j : ℕ) → j ≡ 8 + k → bit (w / 256) k ≡ bit w j
unfolding bit
bit-high w k j e =
    let e' : j ≡ suc (suc (suc (suc (suc (suc (suc (suc k))))))) = omega arith in rw (e', eighth w)

bit-byte_of : (b w i j : ℕ) → i < 8 → j ≡ b * 8 + i → bit (byte_of w b) i ≡ bit w j
unfolding byte_of
bit-byte_of zero w i j h e = let e' : j ≡ i = omega arith in rw e' (bit-low w i h)
bit-byte_of (suc b) w i j h e =
    bit-byte_of b (w / 256) i (b * 8 + i) h refl ∙ bit-high w (b * 8 + i) j (omega arith)

byte_ids-eq-scan :
    (w b n i : ℕ) → i + n ≤ 8 → byte_ids (byte_of w b) b i n ≡ scan (bit w) (b * 8 + i) n
unfolding byte_ids scan
byte_ids-eq-scan w b zero i h = refl
byte_ids-eq-scan w b (suc n) i h =
    let ih = byte_ids-eq-scan w b n (i + 1) (omega arith) in
    let e : b * 8 + i + 1 ≡ b * 8 + (i + 1) = omega arith in
    rw (e, bit-byte_of b w i (b * 8 + i) (omega arith) refl, ih)

zero_byte : (w b : ℕ) → byte_of w b ≡ 0 → scan (bit w) (b * 8) 8 ≡ []
zero_byte w b z = scan-none (bit w) (b * 8) 8 (λ x u v.
    sym (bit-byte_of b w (x - b * 8) x (omega arith) (omega arith))
    ∙ eq-zero-bit (byte_of w b) (x - b * 8) z)

ids_from-eq-scan : (w n b : ℕ) → ids_from w b n ≡ scan (bit w) (b * 8) (n * 8)
unfolding ids_from
ids_from-eq-scan w zero b = sym (scan-none (bit w) (b * 8) 0 (λ x u v. absurd (omega arith)))
ids_from-eq-scan w (suc n) b =
    let ih = ids_from-eq-scan w n (b + 1) in
    let e : suc n * 8 ≡ 8 + n * 8 = omega arith in
    let e' : b * 8 + 8 ≡ (b + 1) * 8 = omega arith in
    rw (e, scan-append (bit w) (b * 8) 8 (n * 8), e', ← ih)
      (elim (Bool-cases (byte_of w b == 0)) [
        | inl t ↦ rw (t, zero_byte w b (==→eq _ _ t))
        | inr t ↦ rw (t, byte_ids-eq-scan w b 8 0 (omega arith), add-zero)
      ])

-- The two nested loops visit the set bits of the word, all 64 of them, in ascending order.
pub word_ids-eq-scan : (w : ℕ) → word_ids w ≡ scan (bit w) 0 64
unfolding word_ids
word_ids-eq-scan w = ids_from-eq-scan w 8 0

pub length-scan-le : (p : ℕ → Bool) (i n : ℕ) → length (scan p i n) ≤ n
unfolding scan
length-scan-le p i zero = omega arith
length-scan-le p i (suc n) = ground (arith, length-scan-le p (i + 1) n)

-- One index more.
pub length-scan-add :
    (p q : ℕ → Bool) (x i n : ℕ)
    → i ≤ x
    → x < i + n
    → p x ≡ false
    → ((y : ℕ) → q y ≡ (if y == x then true else p y))
    → length (scan q i n) ≡ length (scan p i n) + 1
unfolding scan
length-scan-add p q x i zero lo hi out h = absurd (omega arith)
length-scan-add p q x i (suc n) lo hi out h = elim (Bool-cases (i == x)) [
  | inl e ↦
      ground (arith, h i, ap p (==→eq i x e), scan-ext q p (i + 1) n (λ y u v. ground (arith, h y)))
  | inr e ↦ ground (arith, h i, length-scan-add p q x (i + 1) n (ground arith) (omega arith) out h)
]
