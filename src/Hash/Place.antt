-- ===== src/Hash/Place.antt =====
-- What `xdb_hash_add` does to the chain of a slot: the new row as the first sibling of a top node, or as
-- the first top node.
use cross_db.Base.{
  ℕ, ◌^◌, ◌<◌, ◌≡◌, ◌≢◌, refl, sym, ap, ◌∙◌, ◌==◌, List, [], ◌∷◌, ◌++◌, All, All-left, All-right,
  All-map, NotIn, Distinct, update, update-same, update-other, ne→==, arith, if_both, subst,
}
use cross_db.Hash.{Hash, Node, set_sibling, add_sibling}
use cross_db.Hash.Chains.{
  Group, rows, IsRow, Sibs, Tops, Sibs-same, Tops-same, Distinct-Apart, Distinct-left, Tops-IsRow,
}

-- A group in the middle of a chain is replaced.
pub Tops-replace :
    (nodes nodes' : ℕ → Node) (p r : ℕ) (pre : List Group) (gs gs' : List Group)
    → All (λ x. nodes' x ≡ nodes x) (rows pre)
    → ((q s : ℕ) → Tops nodes q s gs → Tops nodes' q s gs')
    → Tops nodes p r (pre ++ gs)
    → Tops nodes' p r (pre ++ gs')
Tops-replace nodes nodes' p r [] gs gs' h f t = f p r t
Tops-replace nodes nodes' p r (a ∷ bs) gs gs' h f t = rw h.0 (
  t.0,
  t.1,
  t.2,
  Sibs-same nodes nodes' 0 a.top (nodes a.top).sibling a.sibs (All-left _ a.sibs (rows bs) h.1) t.3,
  Tops-replace nodes nodes' a.top (nodes a.top).next bs gs gs' (All-right _ a.sibs (rows bs) h.1) f
      t.4,
)

module _ (h : Hash) (top new : ℕ) where
  abbrev after : ℕ → Node
  after = (add_sibling h top new).nodes

  -- The first sibling, or 0.
  abbrev first : ℕ
  first = (h.nodes top).sibling

  abbrev marked : ℕ → Node
  marked = set_sibling h.nodes top new

  abbrev linked : ℕ → Node
  linked = update marked new (record (marked new) { prev = 0; next = first; sibling = top })

  -- The other nodes are as they were.
  pub add_sibling-other : (x : ℕ) → x ≢ top → x ≢ new → x ≢ first → after x ≡ h.nodes x
  unfolding add_sibling
  add_sibling-other x nt nn nf =
      let same = update-other marked new x _ nn ∙ update-other h.nodes top x _ nt in
      if_both (λ (n : ℕ → Node). n x ≡ h.nodes x) (first == 0) linked _ same
        (update-other linked first x _ nf ∙ same)

  add_sibling-top : top ≢ new → top ≢ first → after top ≡ record (h.nodes top) { sibling = new }
  unfolding add_sibling
  add_sibling-top tn tf =
      let same = update-other marked new top _ tn ∙ update-same h.nodes top _ in
      if_both (λ (n : ℕ → Node). n top ≡ record (h.nodes top) { sibling = new }) (first == 0) linked
        _ same (update-other linked first top _ tf ∙ same)

  add_sibling-new :
      new ≢ first → after new ≡ record (marked new) { prev = 0; next = first; sibling = top }
  unfolding add_sibling
  add_sibling-new nf =
      if_both
        (λ (n : ℕ → Node). n new ≡ record (marked new) { prev = 0; next = first; sibling = top })
        (first == 0) linked _ (update-same marked new _)
        (update-other linked first new _ nf ∙ update-same marked new _)

  add_sibling-first :
      first ≢ 0
      → first ≢ new
      → first ≢ top
      → after first ≡ record (h.nodes first) { prev = new; sibling = 2 ^ 31 }
  unfolding add_sibling
  add_sibling-first pos fn ft = rw (ne→== first 0 pos) (
      update-same linked first _
      ∙ ap (λ (n : Node). record n { prev = new; sibling = 2 ^ 31 })
          (update-other marked new first _ fn ∙ update-other h.nodes top first _ ft))

  pub add_sibling-kept :
      (ys : List ℕ)
      → NotIn top ys
      → NotIn new ys
      → NotIn first ys
      → All (λ y. after y ≡ h.nodes y) ys
  add_sibling-kept [] nt nn nf = tt
  add_sibling-kept (y ∷ ys) nt nn nf = (
    add_sibling-other y (λ e. nt.0 (sym e)) (λ e. nn.0 (sym e)) (λ e. nf.0 (sym e)),
    add_sibling-kept ys nt.1 nn.1 nf.1,
  )

  -- The siblings behind the new one.
  later_siblings :
      (xs : List ℕ)
      → NotIn top xs
      → NotIn new xs
      → Distinct xs
      → Sibs h.nodes 0 top first xs
      → Sibs after new (2 ^ 31) first xs
  later_siblings [] nt nn d s = s
  later_siblings (x ∷ xs) nt nn d s =
      let is_first : first ≡ x = s.0 in
      let e : after x ≡ record (h.nodes x) { prev = new; sibling = 2 ^ 31 } =
        subst (λ (y : ℕ). after y ≡ record (h.nodes y) { prev = new; sibling = 2 ^ 31 }) is_first
          (add_sibling-first (omega (arith, is_first, s.1.0)) (λ k. nn.0 (sym k ∙ is_first))
            (λ k. nt.0 (sym k ∙ is_first))) in
      (
        s.0,
        s.1,
        ap (λ (n : Node). n.prev) e,
        ap (λ (n : Node). n.sibling) e,
        rw e (
            Sibs-same h.nodes after x (2 ^ 31) (h.nodes x).next xs
              (add_sibling-kept xs nt.1 nn.1 (subst (λ (y : ℕ). NotIn y xs) (sym is_first) d.0))
              s.4),
      )

  -- Another number is not the first sibling.
  not_first : (x : ℕ) (xs : List ℕ) → 0 < x → NotIn x xs → Sibs h.nodes 0 top first xs → x ≢ first
  not_first x [] pos n s e = omega (arith, pos, e ∙ s)
  not_first x (y ∷ ys) pos n s e = n.0 (e ∙ s.0)

  first_apart :
      (ys sibs : List ℕ)
      → All IsRow ys
      → All (λ x. NotIn x ys) sibs
      → Sibs h.nodes 0 top first sibs
      → NotIn first ys
  first_apart ys [] row apart s =
      All-map IsRow (λ y. first ≢ y) ys (λ y k e. omega (arith, k.0, s, e)) row
  first_apart ys (x ∷ xs) row apart s = subst (λ (y : ℕ). NotIn y ys) (sym s.0) apart.0

  -- The group with the new row.
  pub joined :
      (sibs : List ℕ) (post : List Group) (q s : ℕ)
      → IsRow new
      → top ≢ new
      → NotIn new (sibs ++ rows post)
      → NotIn top (sibs ++ rows post)
      → Distinct (sibs ++ rows post)
      → Tops h.nodes q s (record { top = top; sibs = sibs } ∷ post)
      → Tops after q s (record { top = top; sibs = new ∷ sibs } ∷ post)
  joined sibs post q s row tn nn nt d t =
      let nf = not_first new sibs row.0 (All-left _ sibs (rows post) nn) t.3 in
      let tf = not_first top sibs t.1.0 (All-left _ sibs (rows post) nt) t.3 in
      let at_top = add_sibling-top tn tf in
      let at_new = add_sibling-new nf in
      rw at_top (
        t.0,
        t.1,
        t.2,
        (
          refl,
          row,
          ap (λ (n : Node). n.prev) at_new,
          ap (λ (n : Node). n.sibling) at_new,
          rw at_new (
              later_siblings sibs (All-left _ sibs (rows post) nt) (All-left _ sibs (rows post) nn)
                (Distinct-left sibs (rows post) d) t.3),
        ),
        Tops-same h.nodes after top (h.nodes top).next post
            (add_sibling-kept (rows post) (All-right _ sibs (rows post) nt)
              (All-right _ sibs (rows post) nn)
              (first_apart (rows post) sibs (Tops-IsRow h.nodes top (h.nodes top).next post t.4)
                (Distinct-Apart sibs (rows post) d) t.3))
            t.4,
      )

  -- Rows apart from those of the group and from the new one keep their nodes.
  pub apart_kept :
      (ys sibs : List ℕ)
      → NotIn new ys
      → All IsRow ys
      → All (λ x. NotIn x ys) (top ∷ sibs)
      → Sibs h.nodes 0 top first sibs
      → All (λ y. after y ≡ h.nodes y) ys
  apart_kept ys sibs nn row apart s =
      add_sibling-kept ys apart.0 nn (first_apart ys sibs row apart.1 s)
