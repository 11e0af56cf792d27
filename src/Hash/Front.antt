-- ===== src/Hash/Front.antt =====
-- The chains of the index when a row with a new key comes in.
use cross_db.Base.{
  ℕ, ◌+◌, ◌^◌, ◌<◌, ◌≡◌, ◌≢◌, refl, sym, ap, ◌∙◌, Bool, true, false, ◌==◌, if◌then◌else◌, List, [],
  ◌∷◌, ◌++◌, All, All-left, All-right, All-map, NotIn, Distinct, update, subst, Bool-cases, inl,
  inr, ==→eq, ==→ne, update-same, update-other, arith,
}
use cross_db.Hash.{Hash, Node, set_prev, set_sibling, add_top, push}
use cross_db.Hash.Chains.{Group, rows, IsRow, Tops, Sibs-same, Tops-same, Tops-IsRow}
use cross_db.Hash.Valid.{Chains, after-Distinct, after-Apart}

-- What is known of the nodes and slots when the row stands in front of the slot's chain.
record Pushed (h v : Hash) (k new : ℕ) : Type 0 where
  cap : v.slot_cap ≡ h.slot_cap
  slots : v.slots ≡ update h.slots k new
  others : (x : ℕ) → x ≢ new → x ≢ h.slots k → v.nodes x ≡ h.nodes x
  next : (v.nodes new).next ≡ h.slots k
  prev : (v.nodes new).prev ≡ 2 ^ 31 + k
  sibling : (v.nodes new).sibling ≡ 0
  linked : 0 < h.slots k → v.nodes (h.slots k) ≡ record (h.nodes (h.slots k)) { prev = new }

module _ (h : Hash) (groups : ℕ → List Group) (k new : ℕ) (c : Chains h groups)
    (small : k < h.slot_cap) (row : IsRow new) (fresh : (j : ℕ) → NotIn new (rows (groups j))) where
  abbrev pub alone : Group
  alone = record { top = new; sibs = [] }

  module _ (v : Hash) (w : Pushed h v k new) where
    kept : (ys : List ℕ) → NotIn new ys → NotIn (h.slots k) ys → All (λ y. v.nodes y ≡ h.nodes y) ys
    kept [] nn nf = tt
    kept (y ∷ ys) nn nf = (w.others y (λ e. nn.0 (sym e)) (λ e. nf.0 (sym e)), kept ys nn.1 nf.1)

    -- The chain behind the new row.
    tail :
        (gs : List Group)
        → NotIn new (rows gs)
        → Distinct (rows gs)
        → Tops h.nodes (2 ^ 31 + k) (h.slots k) gs
        → Tops v.nodes new (h.slots k) gs
    tail [] nn d t = t
    tail (g ∷ gs) nn d t =
        let is_top : h.slots k ≡ g.top = t.0 in
        let e : v.nodes g.top ≡ record (h.nodes g.top) { prev = new } =
          subst (λ (y : ℕ). v.nodes y ≡ record (h.nodes y) { prev = new }) is_top
            (w.linked (omega (arith, is_top, t.1.0))) in
        let same =
          kept (g.sibs ++ rows gs) nn.1
            (subst (λ (y : ℕ). NotIn y (g.sibs ++ rows gs)) (sym is_top) d.0) in
        rw e (
          t.0,
          t.1,
          refl,
          Sibs-same h.nodes v.nodes 0 g.top (h.nodes g.top).sibling g.sibs
              (All-left _ g.sibs (rows gs) same) t.3,
          Tops-same h.nodes v.nodes g.top (h.nodes g.top).next gs
              (All-right _ g.sibs (rows gs) same) t.4,
        )

    -- Rows of other slots are not the first of this one.
    not_first :
        (gs : List Group) (ys : List ℕ)
        → All IsRow ys
        → All (λ x. NotIn x ys) (rows gs)
        → Tops h.nodes (2 ^ 31 + k) (h.slots k) gs
        → NotIn (h.slots k) ys
    not_first [] ys row_y apart t =
        All-map IsRow (λ y. h.slots k ≢ y) ys (λ y i e. omega (arith, i.0, t, e)) row_y
    not_first (g ∷ gs) ys row_y apart t = subst (λ (y : ℕ). NotIn y ys) (sym t.0) apart.0

    slot_tops : Tops v.nodes (2 ^ 31 + k) (v.slots k) (alone ∷ groups k)
    slot_tops =
        subst (λ (r : ℕ). Tops v.nodes (2 ^ 31 + k) r (alone ∷ groups k))
          (sym (ap (λ (f : ℕ → ℕ). f k) w.slots ∙ update-same h.slots k new))
          (
            refl,
            row,
            w.prev,
            w.sibling,
            subst (λ (r : ℕ). Tops v.nodes new r (groups k)) (sym w.next)
                (tail (groups k) (fresh k) (c.distinct k) (c.tops k small)),
          )

    other_tops : (j : ℕ) → j ≢ k → j < h.slot_cap → Tops v.nodes (2 ^ 31 + j) (v.slots j) (groups j)
    other_tops j n lt =
        subst (λ (r : ℕ). Tops v.nodes (2 ^ 31 + j) r (groups j))
          (sym (ap (λ (f : ℕ → ℕ). f j) w.slots ∙ update-other h.slots k j new n))
          (Tops-same h.nodes v.nodes (2 ^ 31 + j) (h.slots j) (groups j)
            (kept (rows (groups j)) (fresh j) (
              not_first (groups k) (rows (groups j))
                (Tops-IsRow h.nodes _ _ (groups j) (c.tops j lt)) (c.apart k j (λ m. n (sym m)))
                (c.tops k small)))
            (c.tops j lt))

    pushed-Chains : Chains v (update groups k (alone ∷ groups k))
    pushed-Chains = record {
      tops = λ j lt. elim (Bool-cases (j == k)) [
        | inl f ↦
            subst
              (λ (i : ℕ).
                Tops v.nodes (2 ^ 31 + i) (v.slots i) (update groups k (alone ∷ groups k) i))
              (sym (==→eq j k f))
              (subst (Tops v.nodes (2 ^ 31 + k) (v.slots k))
                (sym (update-same groups k (alone ∷ groups k))) slot_tops)
        | inr f ↦
            subst (Tops v.nodes (2 ^ 31 + j) (v.slots j))
              (sym (update-other groups k j (alone ∷ groups k) (==→ne j k f)))
              (other_tops j (==→ne j k f) (subst (λ (m : ℕ). j < m) w.cap lt))
      ];
      distinct =
          after-Distinct groups k new (alone ∷ groups k) [] (rows (groups k)) refl refl fresh
            c.distinct;
      apart =
          after-Apart groups k new (alone ∷ groups k) [] (rows (groups k)) refl refl fresh c.apart;
    }

  -- The head of the chain is another row.
  head_other :
      (gs : List Group)
      → NotIn new (rows gs)
      → Tops h.nodes (2 ^ 31 + k) (h.slots k) gs
      → h.slots k ≢ new
  head_other [] nn t e = omega (arith, row.0, t, e)
  head_other (g ∷ gs) nn t e = nn.0 (sym e ∙ t.0)

  abbrev first : ℕ
  first = h.slots k

  abbrev cleared : ℕ → Node
  cleared = set_sibling h.nodes new 0

  abbrev front : ℕ → Node
  front = update cleared new (record (cleared new) { next = first; prev = 2 ^ 31 + k })

  front-other : (x : ℕ) → x ≢ new → front x ≡ h.nodes x
  front-other x n = update-other cleared new x _ n ∙ update-other h.nodes new x _ n

  front-sibling : (front new).sibling ≡ 0
  front-sibling =
      ap (λ (n : Node). n.sibling) (update-same cleared new _)
      ∙ ap (λ (n : Node). n.sibling) (update-same h.nodes new _)

  abbrev counted : Hash → Hash
  counted p = record p { node_count = p.node_count + 1; row_count = p.row_count + 1 }

  -- The only row of its slot, and a row before others.
  abbrev lone : Hash
  lone =
      counted
        (record h { nodes = front; slots = update h.slots k new; slot_count = h.slot_count + 1 })

  abbrev before : Hash
  before = counted (record h { nodes = set_prev front first new; slots = update h.slots k new })

  lone-Pushed : first ≡ 0 → Pushed h lone k new
  lone-Pushed e = record {
    cap = refl;
    slots = refl;
    others = λ x nn nf. front-other x nn;
    next = ap (λ (n : Node). n.next) (update-same cleared new _);
    prev = ap (λ (n : Node). n.prev) (update-same cleared new _);
    sibling = front-sibling;
    linked = λ lt. absurd (omega (arith, lt, e));
  }

  before-Pushed : first ≢ new → Pushed h before k new
  before-Pushed n =
      let at_new : set_prev front first new new ≡ front new =
        update-other front first new _ (λ e. n (sym e)) in
      record {
        cap = refl;
        slots = refl;
        others = λ x nn nf. update-other front first x _ nf ∙ front-other x nn;
        next = ap (λ (m : Node). m.next) (at_new ∙ update-same cleared new _);
        prev = ap (λ (m : Node). m.prev) (at_new ∙ update-same cleared new _);
        sibling = ap (λ (m : Node). m.sibling) at_new ∙ front-sibling;
        linked = λ lt.
            update-same front first _
            ∙ ap (λ (m : Node). record m { prev = new }) (front-other first n);
      }

  added : (b : Bool) → (first == 0) ≡ b → Pushed h (if b then lone else before) k new
  added true e = lone-Pushed (==→eq first 0 e)
  added false e = before-Pushed (head_other (groups k) (fresh k) (c.tops k small))

  add_top-eq : add_top h k new ≡ (if first == 0 then lone else before)
  unfolding add_top push
  add_top-eq = elim (Bool-cases (first == 0)) [ inl e ↦ rw e refl | inr e ↦ rw e refl ]

  -- `xdb_hash_add` of a row whose key is new.
  pub add_top-Chains : Chains (add_top h k new) (update groups k (alone ∷ groups k))
  add_top-Chains =
      subst (λ v. Chains v (update groups k (alone ∷ groups k))) (sym add_top-eq)
        (pushed-Chains (if first == 0 then lone else before) (added (first == 0) refl))
