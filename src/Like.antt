-- ===== src/Like.antt =====
-- lib/xdb_str.c: the LIKE matcher. A string is the list of its characters' codes. The pattern ends where
-- its length says, as it does for a C string: a test of the character behind the last one finds no `%`.
pub mod Spec
pub mod Laws
mod Tests
use cross_db.Base.{ℕ, ◌+◌, Bool, true, false, ◌==◌, leb, ◌&&◌, if◌then◌else◌, List, [], ◌∷◌}

-- `%`, `_` and the backslash
abbrev pub percent : ℕ
percent = 37

abbrev pub underscore : ℕ
underscore = 95

abbrev pub backslash : ℕ
backslash = 92

-- `tolower` in the C locale
abbrev pub to_lower : ℕ → ℕ
to_lower c = if leb 65 c && leb c 90 then c + 32 else c

-- Two characters, with `bNoCase`.
abbrev pub same_char : Bool → ℕ → ℕ → Bool
same_char true p c = to_lower p == to_lower c
same_char false p c = p == c

abbrev pub only_percents : List ℕ → Bool
only_percents [] = true
only_percents (p ∷ ps) = if p == percent then only_percents ps else false

-- The loop behind a `%`: `rest` is the call for the rest of the pattern. The result, and
-- `*bSkipLongMat`.
unfoldable pub star : (List ℕ → Bool × Bool) → List ℕ → Bool × Bool
star rest [] = (false, true)
star rest (c ∷ s) =
    let here = rest (c ∷ s) in
    let later = star rest s in if here.0 then here else if here.1 then (false, true) else later

-- One step of the loop after a character: the end of the string is tested at once.
abbrev pub advance : (List ℕ → Bool × Bool) → List ℕ → List ℕ → Bool × Bool
advance rest ps [] = (only_percents ps, false)
advance rest ps (c ∷ s) = rest (c ∷ s)

-- `__xdb_str_like` with `*bSkipLongMat` clear at the call.
unfoldable pub like : Bool → List ℕ → List ℕ → Bool × Bool
unfolding star
like b [] [] = (true, false)
like b [] (c ∷ s) = (false, false)
like b (p ∷ ps) [] = (false, false)
like b (p ∷ []) (c ∷ s) =
    if p == percent
    then (true, false)
    else if p == underscore
    then advance (like b []) [] s
    else if same_char b p c
    then advance (like b []) [] s
    else (false, false)
like b (p ∷ q ∷ ps) (c ∷ s) =
    let next = advance (like b (q ∷ ps)) (q ∷ ps) s in
    let skip = like b (q ∷ ps) (c ∷ s) in
    let behind = star (like b (q ∷ ps)) (c ∷ s) in
    let escaped = advance (like b ps) ps s in
    if p == percent
    then (if q == percent then skip else behind)
    else if p == underscore
    then next
    else if p == backslash
    then (if same_char b q c then escaped else (false, false))
    else if same_char b p c
    then next
    else (false, false)
