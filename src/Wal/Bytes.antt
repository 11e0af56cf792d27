-- ===== src/Wal/Bytes.antt =====
-- The bytes of a mapped file, read and written at an offset, and its little-endian fields.
use Prim.Native.Nat.{ℕ, zero, suc, ◌+◌, ◌*◌, ◌/◌, ◌%◌, ◌^◌, ◌≤◌, ◌<◌}
use mathlib.Core.Path.{◌≡◌, refl, ap, ◌∙◌}
use mathlib.Core.Logic.{◌⊎◌, inl, inr}
use mathlib.Core.List.{List, [], ◌∷◌, ◌++◌}
use native.Mathlib.Omega.{arith}
use cross_db.Base.{length, update, update-same, update-other}

-- The bytes by their offset.
abbrev pub Mem : Type 0
Mem = ℕ → ℕ

unfoldable pub read : Mem → ℕ → ℕ → List ℕ
read m o zero = []
read m o (suc k) = m o ∷ read m (o + 1) k

unfoldable pub write : Mem → ℕ → List ℕ → Mem
write m o [] = m
write m o (b ∷ bs) = write (update m o b) (o + 1) bs

-- A number in `k` bytes, the lowest first.
abbrev pub le : ℕ → ℕ → List ℕ
le zero n = []
le (suc k) n = n % 256 ∷ le k (n / 256)

abbrev pub unle : List ℕ → ℕ
unle [] = 0
unle (b ∷ bs) = b + 256 * unle bs

-- A field of 4 or of 8 bytes.
unfoldable pub get32 : Mem → ℕ → ℕ
get32 m o = unle (read m o 4)

unfoldable pub get64 : Mem → ℕ → ℕ
get64 m o = unle (read m o 8)

pub unle-le4 : (n : ℕ) → n < 2 ^ 32 → unle (le 4 n) ≡ n
unle-le4 n h = omega arith

pub unle-le8 : (n : ℕ) → n < 2 ^ 64 → unle (le 8 n) ≡ n
unle-le8 n h = omega arith

-- The bytes from `a` on, below `b`, are the same in both.
abbrev pub Agree : Mem → Mem → ℕ → ℕ → Type 0
Agree m m' a b = (j : ℕ) → a ≤ j → j < b → m' j ≡ m j

pub read-Agree : (m m' : Mem) (o k : ℕ) → Agree m m' o (o + k) → read m' o k ≡ read m o k
unfolding read
read-Agree m m' o zero h = refl
read-Agree m m' o (suc k) h =
    rw
      (
        h o (omega arith) (omega arith),
        read-Agree m m' (o + 1) k (λ j u v. h j (omega arith) (omega arith)),
      )
      refl

pub write-outside :
    (m : Mem) (o : ℕ) (bs : List ℕ) (j : ℕ) → (j < o) ⊎ (o + length bs ≤ j) → write m o bs j ≡ m j
unfolding write
write-outside m o [] j h = refl
write-outside m o (b ∷ bs) j h =
    write-outside (update m o b) (o + 1) bs j
      (elim h [ inl l ↦ inl (omega arith) | inr g ↦ inr (omega arith) ])
    ∙ update-other m o j b (elim h [ inl l ↦ omega arith | inr g ↦ omega arith ])

pub read-write : (m : Mem) (o : ℕ) (bs : List ℕ) → read (write m o bs) o (length bs) ≡ bs
unfolding read write
read-write m o [] = refl
read-write m o (b ∷ bs) =
    rw
      (
        write-outside (update m o b) (o + 1) bs o (inl (omega arith)),
        update-same m o b,
        read-write (update m o b) (o + 1) bs,
      )
      refl

pub write-append :
    (m : Mem) (o : ℕ) (xs ys : List ℕ)
    → write m o (xs ++ ys) ≡ write (write m o xs) (o + length xs) ys
unfolding write
write-append m o [] ys = ap (λ (z : ℕ). write m z ys) (omega arith)
write-append m o (x ∷ xs) ys =
    write-append (update m o x) (o + 1) xs ys
    ∙ ap (λ (z : ℕ). write (write (update m o x) (o + 1) xs) z ys) (omega arith)

pub Agree-trans : (m m' m'' : Mem) (a b : ℕ) → Agree m m' a b → Agree m' m'' a b → Agree m m'' a b
Agree-trans m m' m'' a b h k j u v = k j u v ∙ h j u v

pub write-Agree :
    (m : Mem) (o : ℕ) (bs : List ℕ) (a b : ℕ)
    → (b ≤ o) ⊎ (o + length bs ≤ a)
    → Agree m (write m o bs) a b
write-Agree m o bs a b h j u v =
    write-outside m o bs j (elim h [ inl l ↦ inl (omega arith) | inr g ↦ inr (omega arith) ])

pub get32-Agree : (m m' : Mem) (o : ℕ) → Agree m m' o (o + 4) → get32 m' o ≡ get32 m o
unfolding get32
get32-Agree m m' o h = ap unle (read-Agree m m' o 4 h)

pub get64-Agree : (m m' : Mem) (o : ℕ) → Agree m m' o (o + 8) → get64 m' o ≡ get64 m o
unfolding get64
get64-Agree m m' o h = ap unle (read-Agree m m' o 8 h)

pub get32-write : (m : Mem) (o n : ℕ) → n < 2 ^ 32 → get32 (write m o (le 4 n)) o ≡ n
unfolding get32
get32-write m o n h = ap unle (read-write m o (le 4 n)) ∙ unle-le4 n h

pub get64-write : (m : Mem) (o n : ℕ) → n < 2 ^ 64 → get64 (write m o (le 8 n)) o ≡ n
unfolding get64
get64-write m o n h = ap unle (read-write m o (le 8 n)) ∙ unle-le8 n h

pub read-shift :
    (m m' : Mem) (o o' k : ℕ)
    → ((j : ℕ) → j < k → m (o + j) ≡ m' (o' + j))
    → read m o k ≡ read m' o' k
unfolding read
read-shift m m' o o' zero h = refl
read-shift m m' o o' (suc k) h =
    let first : m o ≡ m' o' = ap m (omega arith) ∙ h 0 (omega arith) ∙ ap m' (omega arith) in
    let rest =
      read-shift m m' (o + 1) (o' + 1) k
        λ j u. ap m (omega arith) ∙ h (suc j) (omega arith) ∙ ap m' (omega arith) in
    rw (first, rest) refl

pub get32-below : (m : Mem) (o p : ℕ) (bs : List ℕ) → o + 4 ≤ p → get32 (write m p bs) o ≡ get32 m o
get32-below m o p bs h = get32-Agree m _ o (write-Agree m p bs o (o + 4) (inl h))

pub get64-below : (m : Mem) (o p : ℕ) (bs : List ℕ) → o + 8 ≤ p → get64 (write m p bs) o ≡ get64 m o
get64-below m o p bs h = get64-Agree m _ o (write-Agree m p bs o (o + 8) (inl h))
