-- ===== src/Rbt.antt =====
-- core/xdb_rbtree.c and xdb_rbtree.h: the red-black tree index. Node i belongs to the row i, and node 0
-- stands for NULL. The rows with the key of a node of the tree are its siblings, linked by `rb_next` and
-- `rb_prev`. The top bit of `color_sibling` is set in a red node, and the rest of it is the first
-- sibling; `rb_parent` of a sibling has the top bit.
-- The code that the source repeats with left and right exchanged is here once, for a side. Loops make at
-- most `turns` steps; `none` is a loop that goes on.
pub mod Rotate
pub mod Turn
pub mod Shape
pub mod Sound
pub mod Step
pub mod Fixup
pub mod Repair
pub mod Ended
pub mod Descend
pub mod Hang
pub mod Landing
pub mod Balance
pub mod Add
pub mod Delete
pub mod Lower
pub mod Beside
pub mod Shrunk
pub mod Deleted
pub mod Cut
pub mod Seek
pub mod Around
pub mod Outer
pub mod Rename
pub mod Placed
pub mod Inner
pub mod Replace
pub mod Inside
pub mod Removed
pub mod Clear
pub mod Search
mod Tests
pub mod Tree
pub mod Remove
pub mod Query
use mathlib.Core.Option
use Prim.Native.Nat.{Ordering}
use cross_db.Base.{
  ℕ, zero, suc, ◌+◌, ◌%◌, ◌^◌, Bool, ◌==◌, leb, if◌then◌else◌, Option, none, some, update,
}

-- `xdb_rbnode_t`
pub record RbNode : Type 0 where
  pub rb_left : ℕ
  pub rb_right : ℕ
  pub rb_parent : ℕ
  pub color_sibling : ℕ

-- `xdb_rbtree_t`
pub record Rbt : Type 0 where
  pub row_count : ℕ
  pub node_count : ℕ
  pub rb_root : ℕ
  pub nodes : ℕ → RbNode

pub data Side : Type 0 where
  left : Side
  right : Side

abbrev pub other : Side → Side
other left = right
other right = left

abbrev pub child : Side → RbNode → ℕ
child left n = n.rb_left
child right n = n.rb_right

abbrev pub with_child : Side → RbNode → ℕ → RbNode
with_child left n v = record n { rb_left = v }
with_child right n v = record n { rb_right = v }

abbrev pub set_child : Side → (ℕ → RbNode) → ℕ → ℕ → ℕ → RbNode
set_child s h i v = update h i (with_child s (h i) v)

abbrev pub set_parent : (ℕ → RbNode) → ℕ → ℕ → ℕ → RbNode
set_parent h i v = update h i (record (h i) { rb_parent = v })

abbrev pub set_color : (ℕ → RbNode) → ℕ → ℕ → ℕ → RbNode
set_color h i v = update h i (record (h i) { color_sibling = v })

-- `x & XDB_RB_RED`, of a word of 32 bits
abbrev pub has_msb : ℕ → Bool
has_msb x = leb (2 ^ 31) x

abbrev pub is_red : (ℕ → RbNode) → ℕ → Bool
is_red h i = has_msb (h i).color_sibling

-- `color_sibling |= XDB_RB_RED`
abbrev pub redden : (ℕ → RbNode) → ℕ → ℕ → RbNode
redden h i = set_color h i ((h i).color_sibling % 2 ^ 31 + 2 ^ 31)

-- `color_sibling &= ~XDB_RB_RED`
abbrev pub blacken : (ℕ → RbNode) → ℕ → ℕ → RbNode
blacken h i = set_color h i ((h i).color_sibling % 2 ^ 31)

-- The child `x` of `p` is replaced by `y`, or the root when `p` is NULL.
unfoldable pub replace_child : Rbt → ℕ → ℕ → ℕ → Rbt
replace_child t p x y =
    if p == 0
    then record t { rb_root = y }
    else if x == (t.nodes p).rb_left
    then record t { nodes = set_child left t.nodes p y }
    else record t { nodes = set_child right t.nodes p y }

-- `xdb_rb_left_rotate` for the side `left`, and `xdb_rb_right_rotate` for `right`.
unfoldable pub rotate : Side → Rbt → ℕ → Rbt
unfolding replace_child
rotate s t x =
    let y = child (other s) (t.nodes x) in
    let b = child s (t.nodes y) in
    let n1 = set_child (other s) t.nodes x b in
    let n2 = if b == 0 then n1 else set_parent n1 b x in
    let p = (n2 x).rb_parent in
    let t3 = replace_child (record t { nodes = set_parent n2 y p }) p x y in
    record t3 { nodes = set_parent (set_child s t3.nodes y x) x y }

-- Case 1 of `xdb_rb_insert_fixup`: the node `y` beside the parent is red.
unfoldable pub recolor_turn : Rbt → ℕ → ℕ → ℕ → Rbt
recolor_turn t zp y zpp = record t { nodes = redden (blacken (blacken t.nodes zp) y) zpp }

-- Case 3: the parent becomes black, and the node above it red and turned.
unfoldable pub outer_turn : Side → Rbt → ℕ → ℕ → Rbt
outer_turn s t zp zpp = rotate (other s) (record t { nodes = redden (blacken t.nodes zp) zpp }) zpp

-- A turn of `xdb_rb_insert_fixup` at `z`, where the parent is the child of `zpp` on the side `s`: the tree
-- and the next `z`. In case 2 the parent is turned first.
unfoldable pub insert_turn : Side → Rbt → ℕ → ℕ → ℕ → Rbt × ℕ
insert_turn s t z zp zpp =
    let y = child (other s) (t.nodes zpp) in
    if is_red t.nodes y
    then (recolor_turn t zp y zpp, zpp)
    else if z == child (other s) (t.nodes zp)
    then (let t1 = rotate s t zp in
        let zp1 = (t1.nodes zp).rb_parent in (outer_turn s t1 zp1 (t1.nodes zp1).rb_parent, zp))
    else (outer_turn s t zp zpp, z)

-- `xdb_rb_insert_fixup`
unfoldable pub insert_fixup : ℕ → Rbt → ℕ → Option Rbt
insert_fixup zero t z = none
insert_fixup (suc turns) t z =
    let zp = (t.nodes z).rb_parent in
    let zpp = (t.nodes zp).rb_parent in
    let s = if zp == (t.nodes zpp).rb_left then left else right in
    let next = insert_turn s t z zp zpp in
    let rest = insert_fixup turns next.0 next.1 in
    if is_red t.nodes zp then rest else some (record t { nodes = blacken t.nodes t.rb_root })

-- The descent of `xdb_rbtree_add`: the node with the key or 0, the node above, and the last comparison.
-- `cmp` is `xdb_row_cmp3` with the row of a node.
unfoldable pub descend :
    ℕ → (ℕ → RbNode) → (ℕ → Ordering) → ℕ → ℕ → Ordering → Option (ℕ × ℕ × Ordering)
descend zero h cmp x y last = none
descend (suc turns) h cmp x y last =
    let lower = descend turns h cmp (h x).rb_left x Ordering.lt in
    let higher = descend turns h cmp (h x).rb_right x Ordering.gt in
    if x == 0 then some (0, y, last) else elim (cmp x) [
      | Ordering.lt ↦ lower
      | Ordering.eq ↦ some (x, y, Ordering.eq)
      | Ordering.gt ↦ higher
    ]

-- The row `z` becomes the first sibling of `x`.
unfoldable pub add_sibling : Rbt → ℕ → ℕ → Rbt
add_sibling t x z =
    let s = (t.nodes x).color_sibling % 2 ^ 31 in
    let color = if is_red t.nodes x then 2 ^ 31 else 0 in
    let n1 = set_color t.nodes x (color + z) in
    let n2 =
      update n1 z
        (record { rb_left = 0; rb_right = s; rb_parent = x + 2 ^ 31; color_sibling = 0 }) in
    record t {
      nodes =
          if s == 0 then n2 else update n2 s (record (n2 s) { rb_left = z; rb_parent = 2 ^ 31 });
      row_count = t.row_count + 1;
    }

-- The new node `z` under `y`, red and without children.
unfoldable pub hang : Rbt → ℕ → Ordering → ℕ → Rbt
hang t y last z =
    let n1 = set_parent t.nodes z y in
    let t2 : Rbt = if y == 0 then record t { rb_root = z; nodes = n1 } else record t {
      nodes = elim last [ Ordering.lt ↦ set_child left n1 y z | _ ↦ set_child right n1 y z ];
    } in
    record t2 {
      nodes =
          update t2.nodes z
            (record (t2.nodes z) { rb_left = 0; rb_right = 0; color_sibling = 2 ^ 31 });
    }

-- What `xdb_rbtree_add` returns: XDB_E_EXISTS, or XDB_OK.
pub data Added : Type 0 where
  exists : Rbt → Added
  added : Rbt → Added

-- `xdb_rbtree_add` of the row `z`, behind the growth of the file. `seen` is that the index is unique,
-- there is a connection and it sees the row.
unfoldable pub add : ℕ → (ℕ → Ordering) → (ℕ → Bool) → Rbt → ℕ → Option Added
unfolding Option.bind
add turns cmp seen t z = Option.bind (descend turns t.nodes cmp t.rb_root 0 Ordering.eq) λ d.
    let (x, y, last) = d in
    if x == 0
    then Option.map
        (λ r. added (record r { node_count = r.node_count + 1; row_count = r.row_count + 1 }))
        (insert_fixup turns (hang t y last z) z)
    else if seen x
    then some (
        exists (record t {
          nodes =
              update t.nodes z
                (record { rb_left = 0; rb_right = 0; rb_parent = 0; color_sibling = 0 });
        }))
    else some (added (add_sibling t x z))
