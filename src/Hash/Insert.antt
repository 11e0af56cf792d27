-- ===== src/Hash/Insert.antt =====
-- The chains of the index when a row comes in.
use mathlib.Core.List.{append_assoc}
use cross_db.Base.{
  ℕ, ◌+◌, ◌^◌, ◌<◌, ◌≡◌, ◌≢◌, sym, ap, ◌∙◌, ◌==◌, List, [], ◌∷◌, ◌++◌, All, All-left, All-right,
  NotIn, Distinct, Distinct-right, update, subst, Bool-cases, inl, inr, ==→eq, ==→ne, update-same,
  update-other,
}
use cross_db.Hash.{Hash, Node, add_sibling}
use cross_db.Hash.Chains.{
  Group, rows, IsRow, Tops, Tops-same, Apart-sym, Distinct-Apart, rows-append, Tops-IsRow,
}
use cross_db.Hash.Place.{Tops-replace, joined, apart_kept}
use cross_db.Hash.Valid.{Chains, after-Distinct, after-Apart}

-- The end of a chain.
Tops-middle :
    (nodes : ℕ → Node) (p r : ℕ) (pre gs : List Group)
    → Tops nodes p r (pre ++ gs)
    → (q : ℕ) × (s : ℕ) × Tops nodes q s gs
Tops-middle nodes p r [] gs t = (p, r, t)
Tops-middle nodes p r (a ∷ bs) gs t = Tops-middle nodes a.top (nodes a.top).next bs gs t.4

-- The group with the new row behind its top.
abbrev pub with_row : Group → ℕ → Group
with_row g new = record { top = g.top; sibs = new ∷ g.sibs }

rows-middle :
    (pre : List Group) (g : Group) (post : List Group)
    → rows (pre ++ g ∷ post) ≡ (rows pre ++ g.top ∷ []) ++ (g.sibs ++ rows post)
rows-middle pre g post =
    rows-append pre (g ∷ post) ∙ sym (append_assoc (rows pre) (g.top ∷ []) (g.sibs ++ rows post))

module _ (h : Hash) (pre : List Group) (g : Group) (post : List Group) (new p r : ℕ)
    (row : IsRow new) (t : Tops h.nodes p r (pre ++ g ∷ post))
    (d : Distinct (rows (pre ++ g ∷ post))) (nn : NotIn new (rows (pre ++ g ∷ post))) where
  abbrev after : ℕ → Node
  after = (add_sibling h g.top new).nodes

  split_d : Distinct (rows pre ++ rows (g ∷ post))
  split_d = subst Distinct (rows-append pre (g ∷ post)) d

  split_n : NotIn new (rows pre ++ rows (g ∷ post))
  split_n = subst (NotIn new) (rows-append pre (g ∷ post)) nn

  -- Rows apart from those of the group keep their nodes.
  pub kept_apart :
      (ys : List ℕ)
      → NotIn new ys
      → All IsRow ys
      → All (λ x. NotIn x ys) (rows (g ∷ post))
      → All (λ y. after y ≡ h.nodes y) ys
  kept_apart ys ny row_y apart =
      let (q, s, m) = Tops-middle h.nodes p r pre (g ∷ post) t in
      apart_kept h g.top new ys g.sibs ny row_y (apart.0, All-left _ g.sibs (rows post) apart.1) m.3

  kept_before : All (λ y. after y ≡ h.nodes y) (rows pre)
  kept_before =
      kept_apart (rows pre) (All-left _ (rows pre) (rows (g ∷ post)) split_n)
        (All-left IsRow (rows pre) (rows (g ∷ post)) (
          subst (All IsRow) (rows-append pre (g ∷ post))
            (Tops-IsRow h.nodes p r (pre ++ g ∷ post) t)))
        (Apart-sym (rows pre) (rows (g ∷ post))
          (Distinct-Apart (rows pre) (rows (g ∷ post)) split_d))

  pub joined-Tops : Tops after p r (pre ++ with_row g new ∷ post)
  joined-Tops =
      let dg = Distinct-right (rows pre) (rows (g ∷ post)) split_d in
      let ng = All-right _ (rows pre) (rows (g ∷ post)) split_n in
      Tops-replace h.nodes after p r pre (g ∷ post) (with_row g new ∷ post) kept_before
        (λ q s m. joined h g.top new g.sibs post q s row (λ e. ng.0 (sym e)) ng.1 dg.0 dg.1 m) t

-- A row that joins the rows of its key.
pub add_sibling-Chains :
    (h : Hash) (groups : ℕ → List Group) (k : ℕ) (pre : List Group) (g : Group) (post : List Group)
    (new : ℕ)
    → Chains h groups
    → k < h.slot_cap
    → groups k ≡ pre ++ g ∷ post
    → IsRow new
    → ((j : ℕ) → NotIn new (rows (groups j)))
    → Chains (add_sibling h g.top new) (update groups k (pre ++ with_row g new ∷ post))
unfolding add_sibling
add_sibling-Chains h groups k pre g post new c small e row fresh =
    let gs = pre ++ with_row g new ∷ post in
    let xs = rows pre ++ g.top ∷ [] in
    let ys = g.sibs ++ rows post in
    let old = ap rows e ∙ rows-middle pre g post in
    let grown : rows gs ≡ xs ++ new ∷ ys = rows-middle pre (with_row g new) post in
    let t = subst (Tops h.nodes (2 ^ 31 + k) (h.slots k)) e (c.tops k small) in
    let d = subst (λ zs. Distinct (rows zs)) e (c.distinct k) in
    let nn = subst (λ zs. NotIn new (rows zs)) e (fresh k) in
    let after_all = (add_sibling h g.top new).nodes in
    let others : (j : ℕ) → j ≢ k → All (λ x. NotIn x (rows (groups j))) (rows (g ∷ post)) = λ j n.
      All-right _ (rows pre) (rows (g ∷ post)) (
        subst (All (λ x. NotIn x (rows (groups j)))) (ap rows e ∙ rows-append pre (g ∷ post))
          (c.apart k j (λ m. n (sym m)))) in
    record {
      tops = λ j lt. elim (Bool-cases (j == k)) [
        | inl f ↦
            subst (λ (i : ℕ). Tops after_all (2 ^ 31 + i) (h.slots i) (update groups k gs i))
              (sym (==→eq j k f))
              (subst (Tops after_all (2 ^ 31 + k) (h.slots k)) (sym (update-same groups k gs))
                (joined-Tops h pre g post new (2 ^ 31 + k) (h.slots k) row t d nn))
        | inr f ↦
            let n = ==→ne j k f in
            subst (Tops after_all (2 ^ 31 + j) (h.slots j)) (sym (update-other groups k j gs n)) (
              Tops-same h.nodes after_all (2 ^ 31 + j) (h.slots j) (groups j)
                (kept_apart h pre g post new (2 ^ 31 + k) (h.slots k) row t d nn (rows (groups j))
                  (fresh j) (Tops-IsRow h.nodes _ _ (groups j) (c.tops j lt)) (others j n))
                (c.tops j lt))
      ];
      distinct = after-Distinct groups k new gs xs ys old grown fresh c.distinct;
      apart = after-Apart groups k new gs xs ys old grown fresh c.apart;
    }
