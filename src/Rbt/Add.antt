-- ===== src/Rbt/Add.antt =====
-- `xdb_rbtree_add` of a new key.
use Prim.Native.Nat.{Ordering}
use mathlib.Core.Option
use cross_db.Base.{
  ℕ, ◌+◌, ◌*◌, ◌^◌, ◌≤◌, ◌<◌, ◌≡◌, ◌≢◌, refl, sym, ap, ◌∙◌, Bool, true, ne→==, some, List, [], ◌∷◌,
  ◌++◌, arith, subst, length, All, All-left, All-right, All-map, All-append, NotIn,
}
use cross_db.Rbt.{Rbt, RbNode, is_red, hang, insert_fixup, descend, added, add}
use cross_db.Rbt.Tree.{Tree, tip, bin, rows, Frame, plug, above, count, count-mk, at, at_self}
use cross_db.Rbt.Step.{NullBlack}
use cross_db.Rbt.Ended.{IsTree, insert_fixup-IsTree}
use cross_db.Rbt.Hang.{hang-Holds}
use cross_db.Rbt.Descend.{Parted, place, Parted-cut, place-cut, ins, rows-ins, depth}
use cross_db.Rbt.Landing.{land}
use cross_db.Rbt.Balance.{depth-lt}

count-absent : (z : ℕ) (u : Tree) → NotIn z (rows u) → count z u ≡ 0
count-absent z tip h = refl
count-absent z (bin c l k r) h =
    let n = (All-right (λ y. z ≢ y) (rows l) (k ∷ rows r) h).0 in
    rw (ne→== z k n) (
      omega (
        arith,
        count-absent z l (All-left (λ y. z ≢ y) (rows l) (k ∷ rows r) h),
        count-absent z r (All-right (λ y. z ≢ y) (rows l) (k ∷ rows r) h).1,
      ))

count-ins : (cmp : ℕ → Ordering) (z j : ℕ) (u : Tree) → count j (ins cmp z u) ≡ count j u + at j z
count-ins cmp z j tip = omega arith
count-ins cmp z j (bin c l k r) = go (cmp k) (count-ins cmp z j l) (count-ins cmp z j r)
  where
    go :
        (o : Ordering)
        → count j (ins cmp z l) ≡ count j l + at j z
        → count j (ins cmp z r) ≡ count j r + at j z
        → count j (elim o [ Ordering.lt ↦ bin c (ins cmp z l) k r | _ ↦ bin c l k (ins cmp z r) ])
          ≡ count j l + at j k + count j r + at j z
    go Ordering.lt e i = omega (arith, e)
    go Ordering.eq e i = omega (arith, i)
    go Ordering.gt e i = omega (arith, i)

-- `plug` adds what stands above.
pub count-plug : (fs : List Frame) (u : Tree) (j : ℕ) → count j (plug fs u) ≡ count j u + above j fs
count-plug [] u j = omega arith
count-plug (f ∷ fs) u j = count-plug fs _ j ∙ omega (arith, count-mk f.side j f.red u f.key f.sib)

counted_up :
    (turns : ℕ) (cmp : ℕ → Ordering) (seen : ℕ → Bool) (t : Rbt) (z y : ℕ) (last : Ordering)
    (r : Rbt)
    → descend turns t.nodes cmp t.rb_root 0 Ordering.eq ≡ some (0, y, last)
    → insert_fixup turns (hang t y last z) z ≡ some r
    → add turns cmp seen t z
      ≡ some (added (record r { node_count = r.node_count + 1; row_count = r.row_count + 1 }))
unfolding add Option.bind
counted_up turns cmp seen t z y last r e i = rw (e, i) refl

-- `xdb_rbtree_add`, behind the growth of the file, of a row that is not in the index, where the rows before it in the order compare as
-- less and those behind as greater, fewer than 2 ^ k in all, and the loops have 2 * k turns: they end, it
-- returns XDB_OK, and the index holds a red-black tree with the row in its place.
pub add-IsTree :
    (turns k z : ℕ) (cmp : ℕ → Ordering) (seen : ℕ → Bool) (t : Rbt) (ls rs : List ℕ)
    → IsTree t (ls ++ rs)
    → z ≢ 0
    → NotIn z (ls ++ rs)
    → All (λ j. cmp j ≡ Ordering.gt) ls
    → All (λ j. cmp j ≡ Ordering.lt) rs
    → length (ls ++ rs) + 1 < 2 ^ k
    → 2 * k ≤ turns
    → (t' : Rbt) × (add turns cmp seen t z ≡ some (added t')) × IsTree t' (ls ++ z ∷ rs)
add-IsTree turns k z cmp seen t ls rs i nz fresh less greater few enough =
    let u = i.tree in
    let none_eq : All (λ j. cmp j ≢ Ordering.eq) (rows u) =
      subst (λ v. All (λ j. cmp j ≢ Ordering.eq) v) (sym i.in_order)
        (All-append (λ j. cmp j ≢ Ordering.eq) ls rs
          (All-map (λ j. cmp j ≡ Ordering.gt) (λ j. cmp j ≢ Ordering.eq) ls (λ j g e. cc (g, e))
            less)
          (All-map (λ j. cmp j ≡ Ordering.lt) (λ j. cmp j ≢ Ordering.eq) rs (λ j g e. cc (g, e))
            greater)) in
    let deep : depth u < 2 * k =
      depth-lt u i.height k i.sound i.black
        (subst (λ v. length v + 1 < 2 ^ k) (sym i.in_order) few) in
    let d =
      land cmp z t turns t.rb_root 0 u [] Ordering.eq
        (i.held, (refl, refl), λ j. omega (arith, i.once j)) tt
        (i.height, i.sound, tt, λ e. absurd (cc (e, i.black))) none_eq
        (omega (arith, deep, enough)) in
    let absent : above z d.path ≡ 0 = omega (
      arith,
      count-absent z u (subst (λ v. NotIn z v) (sym i.in_order) fresh),
      count-ins cmp z z u,
      count-plug d.path (bin true tip z tip) z,
      ap (λ v. count z v) d.grown,
      at_self z,
    ) in
    let (held, zero_same) = hang-Holds t d.y z d.final d.path d.hung d.holds nz absent in
    let (n, tip_sound, path_sound, under) = d.sound in
    let null : NullBlack (hang t d.y d.final z) =
      ap (λ (v : RbNode). is_red (λ _. v) 0) zero_same ∙ i.null_black in
    let (r, runs, is_tree) =
      insert_fixup-IsTree turns (hang t d.y d.final z) z d.y n (bin true tip z tip) d.path
        (held, refl, (refl, refl, tip_sound, tip_sound), path_sound, null)
        (omega (arith, d.short, deep, enough)) in
    let order : rows (plug d.path (bin true tip z tip)) ≡ ls ++ z ∷ rs =
      ap rows d.grown
      ∙ rows-ins cmp z u
          (subst (λ v. Parted cmp v) (sym i.in_order) (Parted-cut cmp z ls rs less greater))
      ∙ ap (λ v. place cmp z v) i.in_order
      ∙ place-cut cmp z ls rs less greater in
    let j : IsTree r (ls ++ z ∷ rs) = subst (λ v. IsTree r v) order is_tree in
    (
      record r { node_count = r.node_count + 1; row_count = r.row_count + 1 },
      counted_up turns cmp seen t z d.y d.final r d.runs runs,
      record {
        tree = j.tree;
        height = j.height;
        held = j.held;
        once = j.once;
        in_order = j.in_order;
        black = j.black;
        sound = j.sound;
        null_black = j.null_black;
      },
    )
