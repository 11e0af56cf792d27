-- ===== src/Store/Free.antt =====
-- `xdb_stg_free`: the block goes to the end of the queue, and no block is lost.
use mathlib.Core.List.{append_assoc}
use cross_db.Base.{
  ℕ, ◌-◌, ◌<◌, ◌≡◌, refl, sym, ap, ◌∙◌, true, false, ◌==◌, arith, List, [], ◌∷◌, ◌++◌, update,
  length-append, last_or, All, All-append, All-left, All-right, NotIn, Distinct, Distinct-right,
  Distinct-move, NotIn-middle, ne→==, eq→==, Bool-cases, inl, inr,
}
use cross_db.Store.{Stg, Row, row_free, free, mark}
use cross_db.Store.Chain.{Chain, Chain-update, Chain-snoc}
use cross_db.Store.Valid.{IsValid, InRange}

-- The lists of `free_lem`.
move-Distinct :
    (r : ℕ) (xs ys q : List ℕ)
    → Distinct ((xs ++ r ∷ ys) ++ q)
    → Distinct ((xs ++ ys) ++ (q ++ r ∷ []))
move-Distinct r xs ys q d =
    simp append_assoc (simp append_assoc at (Distinct-move r xs (ys ++ q) (rw append_assoc at d)))

move_all :
    (P : ℕ → Type 0) (r : ℕ) (xs ys q : List ℕ)
    → All P ((xs ++ r ∷ ys) ++ q)
    → All P ((xs ++ ys) ++ (q ++ r ∷ []))
move_all P r xs ys q h =
    let live = All-left P (xs ++ r ∷ ys) q h in
    let tail = All-right P xs (r ∷ ys) live in
    All-append P (xs ++ ys) (q ++ r ∷ []) (All-append P xs ys (All-left P xs (r ∷ ys) live) tail.1)
      (All-append P q (r ∷ []) (All-right P (xs ++ r ∷ ys) q h) (tail.0, tt))

not_queued : (r : ℕ) (xs ys q : List ℕ) → Distinct ((xs ++ r ∷ ys) ++ q) → NotIn r q
not_queued r xs ys q d =
    All-right _ ys q (All-right _ xs (ys ++ q) (NotIn-middle r xs (ys ++ q) (rw append_assoc at d)))

-- The rows and the ends of the queue after `xdb_stg_free`.
record Linked (s : Stg) (r : ℕ) (queue : List ℕ) : Type 0 where
  chain : Chain (free s r).rows (free s r).head (queue ++ r ∷ [])
  last : (free s r).tail ≡ last_or 0 (queue ++ r ∷ [])

last_or-snoc : (d r : ℕ) (xs : List ℕ) → last_or d (xs ++ r ∷ []) ≡ r
last_or-snoc d r [] = refl
last_or-snoc d r (x ∷ xs) = last_or-snoc x r xs

last_or-pos : (P : ℕ → Type 0) (x : ℕ) (xs : List ℕ) → All P (x ∷ xs) → P (last_or x xs)
last_or-pos P x [] h = h.0
last_or-pos P x (y ∷ xs) h = last_or-pos P y xs h.1

-- What `xdb_stg_free` leaves.
record Same (s s' : Stg) : Type 0 where
  maxid : s'.maxid ≡ s.maxid
  cap : s'.cap ≡ s.cap
  count : s'.count ≡ s.count - 1

free-Same : (s : Stg) (r : ℕ) → Same s (free s r)
unfolding free
free-Same s r = elim (Bool-cases (s.tail == 0)) [
  | inl e ↦ record { maxid = rw e refl; cap = rw e refl; count = rw e refl }
  | inr e ↦ record { maxid = rw e refl; cap = rw e refl; count = rw e refl }
]

-- The block `r` as `xdb_stg_free` leaves it.
abbrev cleared : Stg → ℕ → Row
cleared s r = record (mark s.ctl_off row_free (s.rows r)) { next = 0 }

-- `xdb_stg_free` with no free block, and with some.
record First (s : Stg) (r : ℕ) : Type 0 where
  rows : (free s r).rows ≡ update s.rows r (cleared s r)
  head : (free s r).head ≡ r
  tail : (free s r).tail ≡ r

free-First : (s : Stg) (r : ℕ) → (s.tail == 0) ≡ true → First s r
unfolding free
free-First s r e = record { rows = rw e refl; head = rw e refl; tail = rw e refl }

abbrev linked : (ℕ → Row) → ℕ → ℕ → ℕ → Row
linked rows tail r = update rows tail (record (rows tail) { next = r })

record Behind (s : Stg) (r : ℕ) : Type 0 where
  rows : (free s r).rows ≡ linked (update s.rows r (cleared s r)) s.tail r
  head : (free s r).head ≡ s.head
  tail : (free s r).tail ≡ r

free-Behind : (s : Stg) (r : ℕ) → (s.tail == 0) ≡ false → Behind s r
unfolding free
free-Behind s r e = record { rows = rw e refl; head = rw e refl; tail = rw e refl }

Chain-eq :
    (rows rows' : ℕ → Row) (h h' : ℕ) (xs : List ℕ)
    → rows ≡ rows'
    → h ≡ h'
    → Chain rows' h' xs
    → Chain rows h xs
Chain-eq rows rows' h h' xs e w c = rw (e, w) c

free_links :
    (s : Stg) (r : ℕ) (queue : List ℕ)
    → 0 < r
    → Chain s.rows s.head queue
    → s.tail ≡ last_or 0 queue
    → All (InRange s.maxid) queue
    → Distinct queue
    → NotIn r queue
    → Linked s r queue
free_links s r [] pos c l ids d n =
    let f = free-First s r (eq→== s.tail 0 l) in
    record { chain = rw (f.rows, f.head) (refl, pos, rw (eq→== r r refl) refl); last = f.tail }
free_links s r (x ∷ q) pos c l ids d n =
    let some_tail : (s.tail == 0) ≡ false =
      ne→== s.tail 0 (λ e. omega (arith, (last_or-pos (InRange s.maxid) x q ids).0, sym l ∙ e)) in
    let f = free-Behind s r some_tail in
    let v = record (update s.rows r (cleared s r) (last_or x q)) { next = r } in
    record {
      chain =
          Chain-eq _ _ _ _ (x ∷ q ++ r ∷ [])
            (f.rows ∙ ap (λ t. linked (update s.rows r (cleared s r)) t r) l) f.head
            (Chain-snoc (update s.rows r (cleared s r)) r s.head x q v d n pos
              (rw (eq→== r r refl) refl) refl
              (Chain-update s.rows r (cleared s r) s.head (x ∷ q) n c));
      last = f.tail ∙ sym (last_or-snoc x r q);
    }

-- `xdb_stg_free` of a block in use of a valid store: the store stays valid, with the block moved
-- from those in use to the end of the queue of free blocks.
pub free_lem :
    (s : Stg) (r : ℕ) (xs ys queue : List ℕ)
    → IsValid s (xs ++ r ∷ ys) queue
    → IsValid (free s r) (xs ++ ys) (queue ++ r ∷ [])
free_lem s r xs ys queue v =
    let pos : 0 < r = (All-right _ xs (r ∷ ys) (All-left _ (xs ++ r ∷ ys) queue v.in_range)).0.0 in
    let links =
      free_links s r queue pos v.chain v.last (All-right _ (xs ++ r ∷ ys) queue v.in_range)
        (Distinct-right (xs ++ r ∷ ys) queue v.distinct) (not_queued r xs ys queue v.distinct) in
    let same = free-Same s r in
    record {
      chain = links.chain;
      last = links.last;
      distinct = move-Distinct r xs ys queue v.distinct;
      in_range = rw same.maxid (move_all _ r xs ys queue v.in_range);
      all_ids = omega (
        arith,
        v.all_ids,
        same.maxid,
        length-append xs (r ∷ ys),
        length-append xs ys,
        length-append queue (r ∷ []),
      );
      counted =
          omega (arith, v.counted, same.count, length-append xs (r ∷ ys), length-append xs ys);
      cap_pos = omega (arith, v.cap_pos, same.cap);
      fits = omega (arith, v.fits, same.cap, same.maxid);
    }
