-- ===== src/Like/Tests.antt =====
-- Runs of the LIKE matcher, and the theorems at concrete inputs.
use cross_db.Base.{◌≡◌, refl, true, false, [], ◌∷◌}
use cross_db.Like.{percent, underscore, backslash, star, like}
use cross_db.Like.Spec.{matches}
use cross_db.Like.Laws.{like_lem}

-- 'abcb' LIKE 'a%_B', without regard to case
run_case : (like true (97 ∷ percent ∷ underscore ∷ 66 ∷ []) (97 ∷ 98 ∷ 99 ∷ 98 ∷ [])).0 ≡ true
unfolding like star
run_case = refl

-- '%b' LIKE '\\%b'
run_escape : (like false (backslash ∷ percent ∷ 98 ∷ []) (percent ∷ 98 ∷ [])).0 ≡ true
unfolding like star
run_escape = refl

like_lem_example :
    (like true (97 ∷ percent ∷ 66 ∷ []) (97 ∷ 98 ∷ 99 ∷ 98 ∷ [])).0
    ≡ matches true (97 ∷ percent ∷ 66 ∷ []) (97 ∷ 98 ∷ 99 ∷ 98 ∷ [])
like_lem_example = like_lem true (97 ∷ percent ∷ 66 ∷ []) 97 (98 ∷ 99 ∷ 98 ∷ [])
