-- ===== src/Bmp/Root/Failure.antt =====
-- `xdb_bmp_set` when malloc fails: the word is marked before the pointer is tested.
use cross_db.Base.{ℕ, ◌/◌, ◌^◌, ◌<◌, ◌≤◌, ◌≡◌, false, ltb, arith, Option, none, some, update}
use cross_db.Bmp.Word.{bit, set_bit, bit-set_bit}
use cross_db.Bmp.Leaf.{Leaf}
use cross_db.Bmp.Root.{Bmp, e_memory, id0, id1, put_node, get, set, set_new, lv1_allocate}
use cross_db.Bmp.Root.Laws.{in_range_lem}

-- The bitmap that is left.
abbrev pub broken : Bmp → ℕ → Bmp
broken b i =
    put_node (record b { bmp1 = update b.bmp1 (id0 i) (set_bit (b.bmp1 (id0 i)) (id1 i)) }) i none

not_static : (n : ℕ) → 1 ≤ n → ltb n 1 ≡ false
not_static n h = ground arith

set_null :
    (b : Bmp) (i : ℕ) (m2 : Option Leaf)
    → i < 2 ^ 31
    → bit (b.bmp1 (id0 i)) (id1 i) ≡ false
    → 1 ≤ b.lv1_alloc
    → set b i none m2 ≡ some (broken b i, e_memory)
unfolding set set_new lv1_allocate
set_null b i m2 r h used = rw (in_range_lem i r, h, not_static b.lv1_alloc used)

get-broken : (b : Bmp) (i j : ℕ) → i < 2 ^ 31 → j / 2 ^ 24 ≡ i / 2 ^ 24 → get (broken b i) j ≡ none
unfolding get
get-broken b i j r e =
    let e0 : id0 j ≡ id0 i = omega arith in
    let e1 : id1 j ≡ id1 i = omega arith in
    rw (e0, e1) (ground (arith, in_range_lem i r, bit-set_bit (id1 i) (id1 i) (b.bmp1 (id0 i))))

-- If the one static node is in use and malloc returns NULL, `xdb_bmp_set` of a bit below 2 ^ 31 whose
-- node is missing returns -XDB_E_MEMORY, and from then on `xdb_bmp_get` of any bit of that node's
-- range reads through NULL.
pub set_fails :
    (b : Bmp) (i j : ℕ) (m2 : Option Leaf)
    → i < 2 ^ 31
    → bit (b.bmp1 (id0 i)) (id1 i) ≡ false
    → 1 ≤ b.lv1_alloc
    → j / 2 ^ 24 ≡ i / 2 ^ 24
    → (set b i none m2 ≡ some (broken b i, e_memory)) × (get (broken b i) j ≡ none)
set_fails b i j m2 r h used e = (set_null b i m2 r h used, get-broken b i j r e)
