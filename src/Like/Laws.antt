-- ===== src/Like/Laws.antt =====
-- The LIKE matcher against plain backtracking.
use mathlib.Core.Bool.{false≢true}
use cross_db.Base.{
  ℕ, ◌≡◌, refl, sym, ap, ◌∙◌, Bool, true, false, ◌==◌, if◌then◌else◌, List, [], ◌∷◌, arith,
  Bool-cases, inl, inr,
}
use cross_db.Like.{percent, underscore, backslash, same_char, only_percents, star, advance, like}
use cross_db.Like.Spec.{
  some_suffix-nil, some_suffix_twice, some_suffix_step, matches-empty, some_suffix-ext,
  some_suffix-cong, some_suffix_idem, matches-percent, some_suffix, one_then, matches,
}

-- What the matcher is to give on strings that are not empty.
record Right (rest : List ℕ → Bool × Bool) (f : List ℕ → Bool) : Type 0 where
  result : (c : ℕ) (s : List ℕ) → (rest (c ∷ s)).0 ≡ f (c ∷ s)
  skip :
      (c : ℕ) (s : List ℕ)
      → (rest (c ∷ s)).0 ≡ false
      → (rest (c ∷ s)).1 ≡ true
      → some_suffix f (c ∷ s) ≡ false

star-result :
    (rest : List ℕ → Bool × Bool) (f : List ℕ → Bool)
    → Right rest f
    → f [] ≡ false
    → (s : List ℕ) → (star rest s).0 ≡ some_suffix f s
unfolding star
star-result rest f r e [] = sym e
star-result rest f r e (c ∷ s) = ground (arith, star-result rest f r e s, r.result c s, r.skip c s)

star-skip :
    (rest : List ℕ → Bool × Bool) (f : List ℕ → Bool)
    → Right rest f
    → f [] ≡ false
    → (s : List ℕ) → (star rest s).0 ≡ false
    → some_suffix (some_suffix f) s ≡ false
star-skip rest f r e s h = some_suffix_twice f s (sym (star-result rest f r e s) ∙ h)

advance-result :
    (rest : List ℕ → Bool × Bool) (f : List ℕ → Bool) (ps s : List ℕ)
    → Right rest f
    → f [] ≡ only_percents ps
    → (advance rest ps s).0 ≡ f s
advance-result rest f ps [] r e = sym e
advance-result rest f ps (c ∷ s) r e = r.result c s

advance-skip :
    (rest : List ℕ → Bool × Bool) (f : List ℕ → Bool) (ps s : List ℕ)
    → Right rest f
    → (advance rest ps s).0 ≡ false
    → (advance rest ps s).1 ≡ true
    → some_suffix f s ≡ false
advance-skip rest f ps [] r h k = absurd (false≢true k)
advance-skip rest f ps (c ∷ s) r h k = r.skip c s h k

-- A matcher that tests one character.
step-Right :
    (t : ℕ → Bool) (rest l : List ℕ → Bool × Bool) (f g : List ℕ → Bool) (ps : List ℕ)
    → Right rest f
    → f [] ≡ only_percents ps
    → ((c : ℕ) (s : List ℕ) → l (c ∷ s) ≡ (if t c then advance rest ps s else (false, false)))
    → ((s : List ℕ) → g s ≡ one_then t f s)
    → Right l g
step-Right t rest l f g ps r e le ge = record {
  result = λ c s.
      ground
        (arith, ap (λ (x : Bool × Bool). x.0) (le c s), ge (c ∷ s), advance-result rest f ps s r e);
  skip = λ c s h k. some_suffix-ext (one_then t f) g (c ∷ s) ge (
      some_suffix_step t f c s (
        ground (
          arith,
          h,
          k,
          ap (λ (x : Bool × Bool). x.0) (le c s),
          ap (λ (x : Bool × Bool). x.1) (le c s),
          advance-skip rest f ps s r,
        )));
}

star-Right :
    (rest l : List ℕ → Bool × Bool) (f g : List ℕ → Bool)
    → Right rest f
    → f [] ≡ false
    → ((c : ℕ) (s : List ℕ) → l (c ∷ s) ≡ star rest (c ∷ s))
    → ((s : List ℕ) → g s ≡ some_suffix f s)
    → Right l g
star-Right rest l f g r e le ge = record {
  result = λ c s.
      ap (λ (x : Bool × Bool). x.0) (le c s) ∙ star-result rest f r e (c ∷ s) ∙ sym (ge (c ∷ s));
  skip = λ c s h k.
      some_suffix-ext (some_suffix f) g (c ∷ s) ge
        (star-skip rest f r e (c ∷ s) (sym (ap (λ (x : Bool × Bool). x.0) (le c s)) ∙ h));
}

-- Two `%` are one.
twice-Right :
    (rest l : List ℕ → Bool × Bool) (f g : List ℕ → Bool)
    → Right rest f
    → ((c : ℕ) (s : List ℕ) → l (c ∷ s) ≡ rest (c ∷ s))
    → ((s : List ℕ) → g s ≡ f s)
    → Right l g
twice-Right rest l f g r le ge = record {
  result = λ c s. ap (λ (x : Bool × Bool). x.0) (le c s) ∙ r.result c s ∙ sym (ge (c ∷ s));
  skip = λ c s h k. some_suffix-ext f g (c ∷ s) ge (
      r.skip c s (sym (ap (λ (x : Bool × Bool). x.0) (le c s)) ∙ h)
        (sym (ap (λ (x : Bool × Bool). x.1) (le c s)) ∙ k));
}

like-Right : (b : Bool) (ps : List ℕ) → Right (like b ps) (matches b ps)
unfolding like matches
like-Right b [] = record { result = λ c s. refl; skip = λ c s h k. absurd (false≢true k) }
like-Right b (p ∷ []) = elim (Bool-cases (p == percent)) [
  | inl e ↦ record {
    result = λ c s. rw e (sym (some_suffix-nil b (c ∷ s)));
    skip = λ c s h k. absurd (false≢true (rw e at (sym h)));
  }
  | inr e ↦ elim (Bool-cases (p == underscore)) [
    | inl u ↦
        step-Right (λ c. true) (like b []) (like b (p ∷ [])) (matches b []) (matches b (p ∷ [])) []
          (like-Right b []) refl (λ c s. rw (e, u) refl) (λ s. rw (e, u) refl)
    | inr u ↦
        step-Right (same_char b p) (like b []) (like b (p ∷ [])) (matches b []) (matches b (p ∷ []))
          [] (like-Right b []) refl (λ c s. rw (e, u) refl) (λ s. rw (e, u) refl)
  ]
]
like-Right b (p ∷ q ∷ ps) =
    let ih = like-Right b (q ∷ ps) in
    let ih₂ = like-Right b ps in
    elim (Bool-cases (p == percent)) [
      | inl e ↦ elim (Bool-cases (q == percent)) [
        | inl d ↦
            twice-Right (like b (q ∷ ps)) (like b (p ∷ q ∷ ps)) (matches b (q ∷ ps))
              (matches b (p ∷ q ∷ ps)) ih (λ c s. rw (e, d) refl)
              (λ s. rw e (
                some_suffix-cong (matches b (q ∷ ps)) (some_suffix (matches b ps)) s
                  (λ u. matches-percent b q ps u d)
                ∙ some_suffix_idem (matches b ps) s
                ∙ sym (matches-percent b q ps s d)))
        | inr d ↦
            star-Right (like b (q ∷ ps)) (like b (p ∷ q ∷ ps)) (matches b (q ∷ ps))
              (matches b (p ∷ q ∷ ps)) ih (matches-empty b (q ∷ ps) ∙ rw d refl)
              (λ c s. rw (e, d) refl) (λ s. rw e refl)
      ]
      | inr e ↦ elim (Bool-cases (p == underscore)) [
        | inl u ↦
            step-Right (λ c. true) (like b (q ∷ ps)) (like b (p ∷ q ∷ ps)) (matches b (q ∷ ps))
              (matches b (p ∷ q ∷ ps)) (q ∷ ps) ih (matches-empty b (q ∷ ps))
              (λ c s. rw (e, u) refl) (λ s. rw (e, u) refl)
        | inr u ↦ elim (Bool-cases (p == backslash)) [
          | inl k ↦
              step-Right (same_char b q) (like b ps) (like b (p ∷ q ∷ ps)) (matches b ps)
                (matches b (p ∷ q ∷ ps)) ps ih₂ (matches-empty b ps) (λ c s. rw (e, u, k) refl)
                (λ s. rw (e, u, k) refl)
          | inr k ↦
              step-Right (same_char b p) (like b (q ∷ ps)) (like b (p ∷ q ∷ ps))
                (matches b (q ∷ ps)) (matches b (p ∷ q ∷ ps)) (q ∷ ps) ih (matches-empty b (q ∷ ps))
                (λ c s. rw (e, u, k) refl) (λ s. rw (e, u, k) refl)
        ]
      ]
    ]

-- The LIKE matcher, with its short cut out of nested loops, gives on a string that is not empty what
-- plain backtracking over the meaning of the pattern gives.
pub like_lem :
    (b : Bool) (ps : List ℕ) (c : ℕ) (s : List ℕ) → (like b ps (c ∷ s)).0 ≡ matches b ps (c ∷ s)
like_lem b ps c s = (like-Right b ps).result c s
