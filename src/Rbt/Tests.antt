-- ===== src/Rbt/Tests.antt =====
-- A tree of the rows 2, 4 and 6, whose keys are in the order of the ids, and the theorems at it.
use Prim.Native.Nat.{Ordering, compare}
use cross_db.Base.{
  ℕ, ◌==◌, ◌^◌, ◌≡◌, refl, ◌≢◌, ◌≤◌, ◌⊎◌, All, true, false, if◌then◌else◌, inr, some, [], ◌∷◌,
  arith,
}
use cross_db.Rbt.{Rbt, RbNode, added, add}
use cross_db.Rbt.Tree.{tip, bin}
use cross_db.Rbt.Ended.{IsTree}
use cross_db.Rbt.Add.{add-IsTree}
use cross_db.Rbt.Remove.{rem}
use cross_db.Rbt.Clear.{rem-IsTree}
use cross_db.Rbt.Around.{occurs}
use cross_db.Rbt.Query.{find}
use cross_db.Rbt.Search.{find_lem}

abbrev node : ℕ → ℕ → ℕ → ℕ → RbNode
node l r p c = record { rb_left = l; rb_right = r; rb_parent = p; color_sibling = c }

abbrev three : Rbt
three = record {
  row_count = 3;
  node_count = 3;
  rb_root = 4;
  nodes = λ i.
      if i == 4
      then node 2 6 0 0
      else if i == 2
      then node 0 0 4 (2 ^ 31)
      else if i == 6
      then node 0 0 4 (2 ^ 31)
      else node 0 0 0 0;
}

three-IsTree : IsTree three (2 ∷ 4 ∷ 6 ∷ [])
three-IsTree = record {
  tree = bin false (bin true tip 2 tip) 4 (bin true tip 6 tip);
  height = 1;
  held = (
    refl,
    omega arith,
    refl,
    refl,
    (refl, omega arith, refl, refl, refl, refl),
    (refl, omega arith, refl, refl, refl, refl),
  );
  once = λ k. ground arith;
  in_order = refl;
  black = refl;
  sound = ((refl, refl, refl, refl), (refl, refl, refl, refl));
  null_black = refl;
}

-- The row 5 is added below the row 6, whose colour is changed.
five_added :
    (t' : Rbt) × (add 6 (λ k. compare 5 k) (λ k. false) three 5 ≡ some (added t'))
    × IsTree t' (2 ∷ 4 ∷ 5 ∷ 6 ∷ [])
five_added =
    add-IsTree 6 3 5 (λ k. compare 5 k) (λ k. false) three (2 ∷ 4 ∷ []) (6 ∷ []) three-IsTree
      (omega arith) (omega arith, (omega arith, (omega arith, tt))) (refl, (refl, tt)) (refl, tt)
      (omega arith) (omega arith)

-- A tree of the rows 2, 4, 6 and 8, where 8 holds the red row 6 on its left.
abbrev four : Rbt
four = record {
  row_count = 4;
  node_count = 4;
  rb_root = 4;
  nodes = λ i.
      if i == 4
      then node 2 8 0 0
      else if i == 2
      then node 0 0 4 0
      else if i == 8
      then node 6 0 4 0
      else if i == 6
      then node 0 0 8 (2 ^ 31)
      else node 0 0 0 0;
}

four-IsTree : IsTree four (2 ∷ 4 ∷ 6 ∷ 8 ∷ [])
four-IsTree = record {
  tree = bin false (bin false tip 2 tip) 4 (bin false (bin true tip 6 tip) 8 tip);
  height = 2;
  held = (
    refl,
    omega arith,
    refl,
    refl,
    (refl, omega arith, refl, refl, refl, refl),
    (refl, omega arith, refl, refl, (refl, omega arith, refl, refl, refl, refl), refl),
  );
  once = λ k. ground arith;
  in_order = refl;
  black = refl;
  sound = ((refl, refl), ((refl, refl, refl, refl), refl));
  null_black = refl;
}

-- The root 4 is removed: the row 6, which stands below 8, takes its place.
root_removed : (t' : Rbt) × (rem 6 four 4 ≡ some t') × IsTree t' (2 ∷ 6 ∷ 8 ∷ [])
root_removed =
    rem-IsTree 6 3 4 four (2 ∷ []) (6 ∷ 8 ∷ []) four-IsTree (inr refl) refl refl (omega arith)
      (omega arith)

-- The key of the row 6 is looked for, the keys being in the order of the ids.
six_found :
    (x : ℕ) × (last : ℕ) × (o : Ordering) × (find 6 four.nodes
        (λ k. compare 6 k)
        four.rb_root
        0
        Ordering.eq
      ≡ some (x, last, o))
    × (((x ≡ 0) × All (λ j. compare 6 j ≢ Ordering.eq) (2 ∷ 4 ∷ 6 ∷ 8 ∷ []))
        ⊎ ((compare 6 x ≡ Ordering.eq) × (1 ≤ occurs x (2 ∷ 4 ∷ 6 ∷ 8 ∷ []))))
six_found =
    find_lem 6 3 (λ k. compare 6 k) four (2 ∷ 4 ∷ 6 ∷ 8 ∷ []) four-IsTree
      (
        (λ e. cc e),
        (λ n. absurd (n refl)),
        (
          (λ e. cc e),
          (λ n. absurd (n refl)),
          ((λ e. cc e), (λ n. ((λ e. cc e), tt)), ((λ e. tt), (λ n. tt), tt)),
        ),
      )
      (omega arith) (omega arith)
