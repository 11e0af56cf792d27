-- ===== src/Rbt/Remove.antt =====
-- `xdb_rbtree_rem` and `xdb_rbtree_init`.
use mathlib.Core.Option
use Prim.Native.Nat.{bit_or}
use cross_db.Base.{
  ℕ, zero, suc, ◌+◌, ◌-◌, ◌%◌, ◌^◌, Bool, not, ◌==◌, ◌&&◌, if◌then◌else◌, Option, none, some,
  update,
}
use cross_db.Rbt.{
  Rbt, Side, left, right, other, child, set_child, set_parent, set_color, has_msb, is_red, redden,
  blacken, replace_child, rotate,
}
use cross_db.Rbt.Query.{outermost}

-- `xdb_rb_transplant`
unfoldable pub transplant : Rbt → ℕ → ℕ → Rbt
unfolding replace_child
transplant t u v =
    let p = (t.nodes u).rb_parent in
    let r = replace_child t p u v in record r { nodes = set_parent r.nodes v p }

-- Case 1 of `xdb_rb_delete_fixup` below `xp`: the red node `w` comes up.
unfoldable pub case1 : Side → Rbt → ℕ → ℕ → Rbt
case1 s t xp w = rotate s (record t { nodes = redden (blacken t.nodes w) xp }) xp

-- Case 3: the red near child `near` of `w` comes up.
unfoldable pub case3 : Side → Rbt → ℕ → ℕ → Rbt
case3 s t near w = rotate (other s) (record t { nodes = redden (blacken t.nodes near) w }) w

-- Case 4: `w` comes up in the colour of `xp`, and `xp` and the far child `far` become black.
unfoldable pub case4 : Side → Rbt → ℕ → ℕ → ℕ → Rbt
case4 s t xp w far =
    let n1 = blacken t.nodes w in
    let n2 = if is_red n1 xp then redden n1 w else n1 in
    rotate s (record t { nodes = blacken (blacken n2 xp) far }) xp

-- Cases 2 to 4, where the node beside `x` is black: the tree and the next `x`.
unfoldable pub black_beside : Side → Rbt → ℕ → Rbt × ℕ
black_beside s t x =
    let xp = (t.nodes x).rb_parent in
    let w = child (other s) (t.nodes xp) in
    let near = child s (t.nodes w) in
    let far = child (other s) (t.nodes w) in
    if not (is_red t.nodes near) && not (is_red t.nodes far)
    then (record t { nodes = redden t.nodes w }, xp)
    else (let t2 = if is_red t.nodes far then t else case3 s t near w in
        let xp2 = (t2.nodes x).rb_parent in
        let w2 = child (other s) (t2.nodes xp2) in
        let t3 = case4 s t2 xp2 w2 (child (other s) (t2.nodes w2)) in (t3, t3.rb_root))

-- A turn of `xdb_rb_delete_fixup` at `x`, which is the child of its parent on the side `s`: the tree and
-- the next `x`.
unfoldable pub delete_turn : Side → Rbt → ℕ → Rbt × ℕ
delete_turn s t x =
    let xp = (t.nodes x).rb_parent in
    let w = child (other s) (t.nodes xp) in
    black_beside s (if is_red t.nodes w then case1 s t xp w else t) x

-- `xdb_rb_delete_fixup`
unfoldable pub delete_fixup : ℕ → Rbt → ℕ → Option Rbt
delete_fixup zero t x = none
delete_fixup (suc turns) t x =
    let s = if x == (t.nodes (t.nodes x).rb_parent).rb_left then left else right in
    let next = delete_turn s t x in
    let rest = delete_fixup turns next.0 next.1 in
    if not (x == t.rb_root) && not (is_red t.nodes x)
    then rest
    else some (record t { nodes = blacken t.nodes x })

-- A sibling: the first one hands its place to the next.
unfoldable pub rem_sibling : Rbt → ℕ → Rbt
rem_sibling t z =
    let y = (t.nodes z).rb_right in
    if (t.nodes z).rb_left == 0
    then (let p = (t.nodes z).rb_parent % 2 ^ 31 in
        let color = if is_red t.nodes p then 2 ^ 31 else 0 in
        if y == 0
        then record t { nodes = set_color t.nodes p color }
        else (let n = set_color t.nodes p (bit_or color y) in
            record t {
              nodes =
                  update n y (record (n y) { rb_left = 0; rb_parent = bit_or (n y).rb_parent p });
            }))
    else (let x = (t.nodes z).rb_left in
        let n = set_child right t.nodes x y in
        record t { nodes = if y == 0 then n else set_child left n y x })

-- A node of the tree with siblings: the first one `s` takes its place.
unfoldable pub rem_promote : Rbt → ℕ → ℕ → Rbt
rem_promote t z s =
    let y = (t.nodes s).rb_right in
    let color = if is_red t.nodes z then 2 ^ 31 else 0 in
    let n1 = set_color t.nodes s (bit_or color y) in
    let n2 =
      if y == 0
      then n1
      else update n1 y (record (n1 y) { rb_parent = bit_or (n1 y).rb_parent s; rb_left = 0 }) in
    let l = (n2 z).rb_left in
    let n3 = set_child left n2 s l in
    let n4 = if l == 0 then n3 else set_parent n3 l s in
    let r = (n4 z).rb_right in
    let n5 = set_child right n4 s r in
    let n6 = if r == 0 then n5 else set_parent n5 r s in
    let p = (n6 z).rb_parent in
    let n7 = set_parent n6 s p in
    if p == 0 then record t { nodes = n7; rb_root = s } else record t {
      nodes = if (n7 p).rb_left == z then set_child left n7 p s else set_child right n7 p s;
    }

-- The end of the removal of a node with two children: `y` comes in the place of `z`.
unfoldable pub placed : Rbt → ℕ → ℕ → Rbt
unfolding transplant
placed t z y =
    let t2 = transplant t z y in
    let n1 = set_child left t2.nodes y (t2.nodes z).rb_left in
    let n2 = set_parent n1 (n1 y).rb_left y in
    record t2 { nodes = if is_red n2 z then redden n2 y else blacken n2 y }

-- The node `z` with two children is replaced by the least node `y` behind it: the tree, and the node
-- to begin the repair at.
unfoldable pub rem_inner : Rbt → ℕ → ℕ → Rbt × ℕ
rem_inner t z y =
    let x = (t.nodes y).rb_right in
    if (t.nodes y).rb_parent == z
    then (placed (record t { nodes = set_parent t.nodes x y }) z y, x)
    else (let u = transplant t y x in
        let n = set_child right u.nodes y (u.nodes z).rb_right in
        (placed (record u { nodes = set_parent n (n y).rb_right y }) z y, x))

-- A node of the tree without siblings.
unfoldable pub rem_node : ℕ → Rbt → ℕ → Option Rbt
unfolding Option.bind
rem_node turns t z =
    let l = (t.nodes z).rb_left in
    let r = (t.nodes z).rb_right in
    let fix = λ (red : Bool) (v : Rbt) (x : ℕ). if red then some v else delete_fixup turns v x in
    Option.map {A = Rbt} (λ v. record v { node_count = v.node_count - 1 })
      (if l == 0
        then fix (is_red t.nodes z) (transplant t z r) r
        else if r == 0
        then fix (is_red t.nodes z) (transplant t z l) l
        else Option.bind (outermost left turns t.nodes r)
            λ y. let out = rem_inner t z y in fix (is_red t.nodes y) out.0 out.1)

-- `xdb_rbtree_rem`
unfoldable pub rem : ℕ → Rbt → ℕ → Option Rbt
unfolding rem_sibling rem_promote rem_node
rem turns t z =
    let n = t.nodes z in
    if (n.rb_left + n.rb_right + n.rb_parent + n.color_sibling) % 2 ^ 32 == 0
      && not (t.rb_root == z)
    then some t
    else Option.map {A = Rbt}
        (λ v. record v {
          nodes =
              update v.nodes z
                (record { rb_left = 0; rb_right = 0; rb_parent = 0; color_sibling = 0 });
          row_count = v.row_count - 1;
        })
        (if has_msb n.rb_parent
          then some (rem_sibling t z)
          else if n.color_sibling % 2 ^ 31 == 0
          then rem_node turns t z
          else some (rem_promote t z (n.color_sibling % 2 ^ 31)))
