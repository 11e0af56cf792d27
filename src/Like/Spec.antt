-- ===== src/Like/Spec.antt =====
-- The meaning of a LIKE pattern, by plain backtracking.
use cross_db.Base.{
  ℕ, ◌≡◌, refl, ◌∙◌, Bool, true, false, ◌==◌, ◌&&◌, ◌||◌, if◌then◌else◌, List, [], ◌∷◌, arith,
}
use cross_db.Like.{percent, underscore, backslash, same_char, only_percents}

-- Does one of the ends of the string, the empty one included, pass?
abbrev pub some_suffix : (List ℕ → Bool) → List ℕ → Bool
some_suffix f [] = f []
some_suffix f (c ∷ s) = f (c ∷ s) || some_suffix f s

-- The first character passes and the rest does.
abbrev pub one_then : (ℕ → Bool) → (List ℕ → Bool) → List ℕ → Bool
one_then t f [] = false
one_then t f (c ∷ s) = t c && f s

-- What a pattern means: `%` is any string, `_` any character, a backslash in front of a character that
-- character, and any other character itself.
unfoldable pub matches : Bool → List ℕ → List ℕ → Bool
matches b [] [] = true
matches b [] (c ∷ s) = false
matches b (p ∷ []) s =
    if p == percent
    then some_suffix (matches b []) s
    else if p == underscore
    then one_then (λ c. true) (matches b []) s
    else one_then (same_char b p) (matches b []) s
matches b (p ∷ q ∷ ps) s =
    let rest = some_suffix (matches b (q ∷ ps)) s in
    let next = one_then (λ c. true) (matches b (q ∷ ps)) s in
    let escaped = one_then (same_char b q) (matches b ps) s in
    let literal = one_then (same_char b p) (matches b (q ∷ ps)) s in
    if p == percent
    then rest
    else if p == underscore
    then next
    else if p == backslash
    then escaped
    else literal

pub some_suffix-nil : (b : Bool) (s : List ℕ) → some_suffix (matches b []) s ≡ true
unfolding matches
some_suffix-nil b [] = refl
some_suffix-nil b (c ∷ s) = some_suffix-nil b s

pub some_suffix_twice :
    (f : List ℕ → Bool) (s : List ℕ)
    → some_suffix f s ≡ false
    → some_suffix (some_suffix f) s ≡ false
some_suffix_twice f [] h = h
some_suffix_twice f (c ∷ s) h = ground (arith, some_suffix_twice f s)

pub some_suffix_step :
    (t : ℕ → Bool) (f : List ℕ → Bool) (c : ℕ) (s : List ℕ)
    → some_suffix f s ≡ false
    → some_suffix (one_then t f) (c ∷ s) ≡ false
some_suffix_step t f c [] h = ground (arith)
some_suffix_step t f c (d ∷ s) h = ground (arith, some_suffix_step t f d s)

-- At the end of the string a pattern matches if nothing but `%` is left of it.
pub matches-empty : (b : Bool) (ps : List ℕ) → matches b ps [] ≡ only_percents ps
unfolding matches
matches-empty b [] = refl
matches-empty b (p ∷ []) = ground arith
matches-empty b (p ∷ q ∷ ps) = ground (arith, matches-empty b (q ∷ ps))

pub some_suffix-ext :
    (f g : List ℕ → Bool) (s : List ℕ)
    → ((s : List ℕ) → g s ≡ f s)
    → some_suffix f s ≡ false
    → some_suffix g s ≡ false
some_suffix-ext f g [] e h = e [] ∙ h
some_suffix-ext f g (c ∷ s) e h = ground (arith, e (c ∷ s), some_suffix-ext f g s e)

pub some_suffix-cong :
    (f g : List ℕ → Bool) (s : List ℕ)
    → ((s : List ℕ) → f s ≡ g s)
    → some_suffix f s ≡ some_suffix g s
some_suffix-cong f g [] e = e []
some_suffix-cong f g (c ∷ s) e = ground (arith, e (c ∷ s), some_suffix-cong f g s e)

pub some_suffix_idem :
    (f : List ℕ → Bool) (s : List ℕ) → some_suffix (some_suffix f) s ≡ some_suffix f s
some_suffix_idem f [] = refl
some_suffix_idem f (c ∷ s) = ground (arith, some_suffix_idem f s)

pub matches-percent :
    (b : Bool) (q : ℕ) (ps s : List ℕ)
    → (q == percent) ≡ true
    → matches b (q ∷ ps) s ≡ some_suffix (matches b ps) s
unfolding matches
matches-percent b q [] s e = rw e refl
matches-percent b q (p ∷ ps) s e = rw e refl
