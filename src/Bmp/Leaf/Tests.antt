-- ===== src/Bmp/Leaf/Tests.antt =====
-- Runs of `Leaf`.
use cross_db.Base.{◌≡◌, refl, true, [], ◌∷◌}
use cross_db.Bmp.Word.{bit, set_bit, clr_bit}
use cross_db.Bmp.Scan.{word_ids, for_each}
use cross_db.Bmp.Leaf.{Leaf, init, set, clr, iterate}

-- Memory as it is found.
abbrev junk : Leaf
junk = record { bmp4 = 5; bmp5 = λ _. 9; count = 77; b_malloc = true }

two_bits : iterate (set (set (init junk) 70) 4095) 0 ≡ 70 ∷ 4095 ∷ []
unfolding init set iterate bit set_bit word_ids for_each
two_bits = refl

one_cleared : iterate (clr (set (set (init junk) 70) 4095) 70) 0 ≡ 4095 ∷ []
unfolding init set clr iterate bit set_bit clr_bit word_ids for_each
one_cleared = refl
