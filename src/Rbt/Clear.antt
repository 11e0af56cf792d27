-- ===== src/Rbt/Clear.antt =====
-- `xdb_rbtree_rem` of a row without siblings.
use cross_db.Base.{
  ℕ, ◌+◌, ◌-◌, ◌*◌, ◌^◌, ◌%◌, ◌≤◌, ◌<◌, ◌≡◌, ◌≢◌, refl, sym, ap, ◌∙◌, false, not, ◌&&◌, ◌==◌, some,
  List, ◌∷◌, ◌++◌, arith, subst, length, eq→==, ne→==, ◌⊎◌, inl, inr, update, update-other,
}
use cross_db.Rbt.{Rbt, RbNode, has_msb}
use cross_db.Rbt.Remove.{rem_node, rem}
use cross_db.Rbt.Tree.{Rep-same, count}
use cross_db.Rbt.Cut.{zero_absent}
use cross_db.Rbt.Ended.{IsTree}
use cross_db.Rbt.Around.{occurs, occurs-append, count-occurs, occurs-mid}
use cross_db.Rbt.Removed.{rem_node-IsTree}

cleared : Rbt → ℕ → Rbt
cleared t z = record t {
  nodes = update t.nodes z (record { rb_left = 0; rb_right = 0; rb_parent = 0; color_sibling = 0 });
  row_count = t.row_count - 1;
}

cleared-IsTree :
    (t : Rbt) (z : ℕ) (xs : List ℕ)
    → z ≢ 0
    → occurs z xs ≡ 0
    → IsTree t xs
    → IsTree (cleared t z) xs
unfolding cleared
cleared-IsTree t z xs nz out i =
    let blank : RbNode = record { rb_left = 0; rb_right = 0; rb_parent = 0; color_sibling = 0 } in
    let gone : count z i.tree ≡ 0 = count-occurs z i.tree ∙ ap (λ v. occurs z v) i.in_order ∙ out in
    record {
      tree = i.tree;
      height = i.height;
      held =
          Rep-same t.nodes (update t.nodes z blank) 0 t.rb_root i.tree
            (λ k n.
              update-other t.nodes z k blank
                (λ e. omega (arith, gone, subst (λ j. 1 ≤ count j i.tree) e n)))
            i.held;
      once = i.once;
      in_order = i.in_order;
      black = i.black;
      sound = i.sound;
      null_black =
          ap (λ (n : RbNode). has_msb n.color_sibling)
            (update-other t.nodes z 0 blank (λ e. nz (sym e)))
          ∙ i.null_black;
    }

-- A node that is in use.
abbrev InUse : Rbt → ℕ → Type 0
InUse t z =
    let n = t.nodes z in
    ((n.rb_left + n.rb_right + n.rb_parent + n.color_sibling) % 2 ^ 32 ≢ 0) ⊎ (t.rb_root ≡ z)

rem_alone :
    (turns : ℕ) (t t' : Rbt) (z : ℕ)
    → InUse t z
    → has_msb (t.nodes z).rb_parent ≡ false
    → (t.nodes z).color_sibling % 2 ^ 31 ≡ 0
    → rem_node turns t z ≡ some t'
    → rem turns t z ≡ some (cleared t' z)
unfolding rem cleared
rem_alone turns t t' z (inl u) e i r =
    let n = t.nodes z in
    rw
      (
        ne→== ((n.rb_left + n.rb_right + n.rb_parent + n.color_sibling) % 2 ^ 32) 0 u,
        e,
        eq→== (n.color_sibling % 2 ^ 31) 0 i,
        r,
      )
      refl
rem_alone turns t t' z (inr u) e i r =
    let n = t.nodes z in
    let tested : ((n.rb_left + n.rb_right + n.rb_parent + n.color_sibling) % 2 ^ 32 == 0
          && not (t.rb_root == z))
        ≡ false =
      rw (eq→== t.rb_root z u) (ground arith) in
    rw (tested, e, eq→== (n.color_sibling % 2 ^ 31) 0 i, r) refl

-- `xdb_rbtree_rem` of a row that heads no list of equal rows and is in none, whose node is in use, in an
-- index of fewer than 2 ^ k rows, where the loops have 2 * k turns: they end, and the index holds a
-- red-black tree without the row, the others in their order.
pub rem-IsTree :
    (turns k z : ℕ) (t : Rbt) (ls rs : List ℕ)
    → IsTree t (ls ++ z ∷ rs)
    → InUse t z
    → has_msb (t.nodes z).rb_parent ≡ false
    → (t.nodes z).color_sibling % 2 ^ 31 ≡ 0
    → length (ls ++ z ∷ rs) + 1 < 2 ^ k
    → 2 * k ≤ turns
    → (t' : Rbt) × (rem turns t z ≡ some t') × IsTree t' (ls ++ rs)
rem-IsTree turns k z t ls rs i used alone headless few enough =
    let (t', runs, is_tree) = rem_node-IsTree turns k z t ls rs i few enough in
    let in_list : count z i.tree ≡ occurs z (ls ++ z ∷ rs) =
      count-occurs z i.tree ∙ ap (λ v. occurs z v) i.in_order in
    let nz : z ≢ 0 = λ e. omega (
      arith,
      in_list,
      occurs-mid z ls rs,
      subst (λ j. count j i.tree ≡ 0) (sym e) (zero_absent t.nodes 0 t.rb_root i.tree i.held),
    ) in
    let out : occurs z (ls ++ rs) ≡ 0 =
      omega (arith, in_list, i.once z, occurs-mid z ls rs, occurs-append z ls rs) in
    (
      cleared t' z,
      rem_alone turns t t' z used alone headless runs,
      cleared-IsTree t' z (ls ++ rs) nz out is_tree,
    )
