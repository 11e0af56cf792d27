-- ===== src/Bmp/Root/Tests.antt =====
-- Runs of the bitmap, and the theorems of `Root` at concrete inputs.
use cross_db.Base.{ℕ, ◌^◌, ◌≡◌, refl, true, arith, Option, none, some, List, [], ◌∷◌}
use cross_db.Bmp.Scan.{scan, word_ids, for_each}
use cross_db.Bmp.Word.{bit, set_bit, clr_bit}
use cross_db.Bmp.Leaf
use cross_db.Bmp.Leaf.{Leaf}
use cross_db.Bmp.Root.{Node, Bmp, Ret, ok, e_memory, init, get, set, clr, iterate}
use cross_db.Bmp.Root.Valid.{member, IsValid}
use cross_db.Bmp.Root.Laws.{init-IsValid, get_lem, set_lem, SetDone}
use cross_db.Bmp.Root.Clear.{clr_lem, ClrDone}
use cross_db.Bmp.Root.Iterate.{iterate_lem}
use cross_db.Bmp.Root.Failure.{broken, set_fails}

-- Memory as it is found: garbage.
abbrev junk_leaf : Leaf
junk_leaf = record { bmp4 = 5; bmp5 = λ _. 9; count = 77; b_malloc = true }

abbrev junk_node : Node
junk_node = record { bmp2 = 3; bmp3 = λ _. 1; leaves = λ _ _. none; b_malloc = true }

abbrev junk : Bmp
junk = record {
  bmp1 = λ _. 1;
  nodes = λ _ _. none;
  lv1_bmp = λ _. junk_node;
  lv2_bmp = λ _. junk_leaf;
  lv1_alloc = 9;
  lv2_alloc = 9;
}

abbrev put : ℕ → Option (Bmp × Ret) → Option (Bmp × Ret)
put i none = none
put i (some (b, r)) = set b i (some junk_node) (some junk_leaf)

abbrev del : ℕ → Option (Bmp × Ret) → Option (Bmp × Ret)
del i none = none
del i (some (b, r)) = elim (clr b i) [ none ↦ none | some b' ↦ some (b', r) ]

abbrev ids : Option (Bmp × Ret) → Option (List ℕ)
ids none = none
ids (some (b, r)) = iterate b

-- Bits in two nodes and several leaves; one is cleared again.
run_ids :
    ids (del 70 (put 2147483647 (put 70 (put 5000 (put 64 (some (init junk, ok)))))))
    ≡ some (64 ∷ 5000 ∷ 2147483647 ∷ [])
unfolding init set clr iterate bit set_bit clr_bit word_ids Leaf.iterate for_each
run_ids = refl

-- The C has no meaning at 2 ^ 31.
out_of_range : get (init junk) 2147483648 ≡ none
unfolding get init
out_of_range = refl

init-IsValid_example : IsValid (init junk)
init-IsValid_example = init-IsValid junk

get_lem_example : get (init junk) 5000 ≡ some (member (init junk) 5000)
get_lem_example = get_lem (init junk) 5000 (init-IsValid junk) (omega arith)

abbrev one_bit : SetDone (init junk) 5000 (set (init junk) 5000 (some junk_node) (some junk_leaf))
one_bit = set_lem (init junk) 5000 junk_node junk_leaf (init-IsValid junk) (omega arith)

set_lem_example : SetDone (init junk) 5000 (set (init junk) 5000 (some junk_node) (some junk_leaf))
set_lem_example = set_lem (init junk) 5000 junk_node junk_leaf (init-IsValid junk) (omega arith)

clr_lem_example : ClrDone one_bit.result 5000 (clr one_bit.result 5000)
clr_lem_example = clr_lem one_bit.result 5000 one_bit.valid (omega arith)

iterate_lem_example : iterate one_bit.result ≡ some (scan (member one_bit.result) 0 (2 ^ 31))
iterate_lem_example = iterate_lem one_bit.result one_bit.valid

-- A bitmap whose static node is taken.
abbrev taken : Bmp
taken = record (init junk) { lv1_alloc = 1; bmp1 = λ _. 0 }

set_fails_example :
    (set taken 5000 none none ≡ some (broken taken 5000, e_memory))
    × (get (broken taken 5000) 64 ≡ none)
unfolding bit
set_fails_example = set_fails taken 5000 64 none (omega arith) refl (omega arith) (omega arith)
