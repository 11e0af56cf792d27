-- ===== src/Store/Laws.antt =====
-- `xdb_stg_alloc`: the free blocks are a first-in first-out queue; no block is given out twice.
use mathlib.Core.List.{append_assoc, append-nil}
use native.Mathlib.Nat.{mul-le-mul_left}
use cross_db.Base.{
  ℕ, ◌+◌, ◌*◌, ◌%◌, ◌^◌, leb, ◌<◌, ◌≤◌, ◌≡◌, refl, sym, ap, ◌∙◌, ◌≢◌, true, false, ◌==◌,
  if◌then◌else◌, arith, Option, none, some, List, [], ◌∷◌, ◌++◌, length-append, last_or, All,
  All-append, All-map, NotIn, Distinct-right, Distinct-snoc, ne→==, eq→==, Bool-cases, inl, inr,
  ==→eq, ==→ne, le→leb,
}
use cross_db.Store.{
  Stg, Row, row_dirty, Memory, alloc, alloc_new, taken, truncate, mark, grown, size_of,
}
use cross_db.Store.Chain.{Chain-update, NotIn-last}
use cross_db.Store.Valid.{IsValid, InRange}

-- What `xdb_stg_alloc` gives: the block `rid`, which goes from the queue (or from above `blk_maxid`)
-- to the end of the blocks in use.
pub record Allocated (s : Stg) (live queue : List ℕ) (rid : ℕ) (rest : List ℕ) (r : Option ℕ × Stg)
    : Type 0 where
  pub gives : r.0 ≡ some rid
  pub valid : IsValid r.1 (live ++ rid ∷ []) rest
  -- No block but `rid` below the old end is written.
  pub others : (y : ℕ) → y ≤ s.cap → y ≢ rid → r.1.rows y ≡ s.rows y

mark-next : (off c : ℕ) (r : Row) → (mark off c r).next ≡ r.next
mark-next off c r = ground arith

tail_after :
    (t rid : ℕ) (rest : List ℕ)
    → t ≡ last_or rid rest
    → NotIn rid rest
    → (if t == rid then 0 else t) ≡ last_or 0 rest
tail_after t rid [] e n = rw (eq→== t rid e)
tail_after t rid (x ∷ xs) e n = rw (ne→== t rid (λ q. NotIn-last rid x xs n (sym q ∙ e))) e

-- `xdb_stg_alloc` on a valid store with free blocks, allocation allowed: it gives the block that
-- was freed first; the store stays valid with that block in use, and no other block up to the
-- capacity is written.
pub alloc_queued :
    (s : Stg) (live rest : List ℕ) (rid : ℕ) (mem : Memory)
    → s.no_alloc ≡ false
    → IsValid s live (rid ∷ rest)
    → Allocated s live (rid ∷ rest) rid rest (alloc s mem)
unfolding alloc
alloc_queued s live rest rid mem ok v =
    let (e, pos, c) = v.chain in
    let ne : (s.head == 0) ≡ false = ground arith in
    record {
      gives = rw (ok, ne) (ap some e);
      valid =
          rw (ok, ne)
            (record {
              chain = rw e (
                  Chain-update s.rows rid (mark s.ctl_off row_dirty (s.rows rid)) (s.rows rid).next
                    rest (Distinct-right live (rid ∷ rest) v.distinct).0 c);
              last = rw e (
                  tail_after s.tail rid rest v.last
                    (Distinct-right live (rid ∷ rest) v.distinct).0);
              distinct = rw append_assoc v.distinct;
              in_range = rw append_assoc v.in_range;
              all_ids = omega (arith, v.all_ids, length-append live (rid ∷ []));
              counted = omega (arith, v.counted, length-append live (rid ∷ []));
              cap_pos = v.cap_pos;
              fits = v.fits;
            });
      others = λ y u w. rw (ok, ne) (rw (ne→== y s.head (λ q. w (q ∙ e))));
    }

-- With `blk_maxid` blocks in use, all of them below the end `cap'` of the memory.
module _ (s s' : Stg) (live : List ℕ) (v : IsValid s live []) where
  -- `s'` is `s`, or `s` with more memory.
  record Extended : Type 0 where
    same_max : s'.maxid ≡ s.maxid
    same_count : s'.count ≡ s.count
    same_tail : s'.tail ≡ s.tail
    same_head : s'.head ≡ s.head
    room : s.maxid < s'.cap
    same_rows : (y : ℕ) → y ≤ s.cap → s'.rows y ≡ s.rows y

  new_block :
      Extended
      → (failed : Option ℕ × Stg)
      → Allocated s live [] (s.maxid + 1) [] (alloc_new (some s') failed)
  unfolding alloc_new taken
  new_block x failed = record {
    gives = ap (λ n. some (n + 1)) x.same_max;
    valid = record {
      chain = x.same_head ∙ v.chain;
      last = x.same_tail ∙ v.last;
      distinct = rw append-nil (
          Distinct-snoc (s.maxid + 1) live (All-map _ _ live (λ y h. omega arith) ids)
            (rw append-nil at v.distinct));
      in_range = rw append-nil (
          All-append _ live _ (All-map _ _ live (λ y h. (h.0, omega (arith, h.1, x.same_max))) ids)
            ((omega arith, omega (arith, x.same_max)), tt));
      all_ids = omega (arith, v.all_ids, x.same_max, length-append live ((s.maxid + 1) ∷ []));
      counted = omega (arith, v.counted, x.same_count, length-append live ((s.maxid + 1) ∷ []));
      cap_pos = omega (arith, x.room);
      fits = omega (arith, x.room, x.same_max);
    };
    others = λ y u w.
        rw (ne→== y (s'.maxid + 1) (λ q. w (q ∙ ap (λ n. n + 1) x.same_max))) (x.same_rows y u);
  }
    where
      ids : All (InRange s.maxid) live
      ids = rw append-nil at v.in_range

-- `xdb_stg_alloc` with no free block.
pub alloc_at_0 :
    (s : Stg) (mem : Memory)
    → s.no_alloc ≡ false
    → (s.head == 0) ≡ true
    → alloc s mem
      ≡ alloc_new
          (if s.maxid == s.cap then truncate s (s.cap * 2 % 2 ^ 32) mem else some s)
          (none, s)
unfolding alloc
alloc_at_0 s mem ok at_0 = simp (ok, at_0) refl

-- The blocks up to the capacity are kept if it is doubled below 4 GiB.
kept :
    (s : Stg) (fresh : ℕ → Row) (y : ℕ)
    → s.cap < 2 ^ 30
    → s.blk_off + s.blk_size * (s.cap * 2) < 2 ^ 32
    → y ≤ s.cap
    → grown s (s.cap * 2 % 2 ^ 32) fresh y ≡ s.rows y
unfolding size_of
kept s fresh y small below u =
    let twice : s.cap * 2 % 2 ^ 32 ≡ s.cap * 2 = omega arith in
    let more : s.blk_size * y ≤ s.blk_size * (s.cap * 2) =
      mul-le-mul_left s.blk_size (omega (arith, u)) in
    let inside : leb (s.blk_off + s.blk_size * y) ((s.blk_off + s.blk_size * (s.cap * 2)) % 2 ^ 32)
        ≡ true =
      le→leb _ _ (omega (arith, more, below)) in
    rw (twice, le→leb y s.cap u, inside) refl

-- `xdb_stg_alloc` on a valid store with no free block, allocation allowed and memory there, where
-- twice the capacity is below 2 ^ 31 and needs less than 4 GiB if the store is full: it gives the id
-- after the highest one; the store stays valid with that block in use, and no other block up to the old
-- capacity is written.
pub alloc_fresh :
    (s : Stg) (live : List ℕ) (fresh : ℕ → Row)
    → s.no_alloc ≡ false
    → IsValid s live []
    → (s.maxid ≡ s.cap → (s.cap < 2 ^ 30) × (s.blk_off + s.blk_size * (s.cap * 2) < 2 ^ 32))
    → Allocated s live [] (s.maxid + 1) [] (alloc s (some fresh))
unfolding alloc
alloc_fresh s live fresh ok v below =
    let at_0 : (s.head == 0) ≡ true = eq→== s.head 0 v.chain in
    rw (alloc_at_0 s (some fresh) ok at_0) (elim (Bool-cases (s.maxid == s.cap)) [
      | inl e ↦ rw e (
          new_block s
            (record s {
              cap = s.cap * 2 % 2 ^ 32;
              rows = grown s (s.cap * 2 % 2 ^ 32) fresh;
              mapped = size_of s (s.cap * 2 % 2 ^ 32);
            })
            live v
            (record {
              same_max = refl;
              same_count = refl;
              same_tail = refl;
              same_head = refl;
              room =
                  omega
                    (arith, ==→eq s.maxid s.cap e, v.cap_pos, (below (==→eq s.maxid s.cap e)).0);
              same_rows = λ y u.
                  let (small, size) = below (==→eq s.maxid s.cap e) in kept s fresh y small size u;
            })
            (none, s))
      | inr e ↦ rw e (
          new_block s s live v
            (record {
              same_max = refl;
              same_count = refl;
              same_tail = refl;
              same_head = refl;
              room = omega (arith, ==→ne s.maxid s.cap e, v.fits);
              same_rows = λ y u. refl;
            })
            (none, s))
    ])

-- `xdb_stg_alloc` on a valid store that is full and cannot grow returns -1 and leaves the store as it
-- was.
pub alloc_fails :
    (s : Stg) (live : List ℕ) → IsValid s live [] → s.maxid ≡ s.cap → alloc s none ≡ (none, s)
unfolding alloc
alloc_fails s live v full =
    let at_0 : (s.head == 0) ≡ true = eq→== s.head 0 v.chain in
    rw (at_0, eq→== s.maxid s.cap full) (ground arith)
