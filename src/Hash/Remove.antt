-- ===== src/Hash/Remove.antt =====
-- `xdb_hash_rem` and `xdb_hash_init`.
use cross_db.Base.{ℕ, ◌+◌, ◌-◌, ◌%◌, ◌^◌, ◌==◌, ltb, if◌then◌else◌, update}
use cross_db.Hash.{Hash, Node, has_msb, set_next, set_prev, set_sibling, unlink}

-- A node without siblings, or a sibling but the first.
pub rem_normal : Hash → Node → Hash
rem_normal h cur =
    let u = unlink h cur in
    record u { node_count = if has_msb cur.sibling then u.node_count else u.node_count - 1 }

-- The first sibling: the next one takes its place.
pub rem_first : Hash → Node → Hash
rem_first h cur =
    let n = set_sibling h.nodes cur.sibling cur.next in
    record h {
      nodes =
          if cur.next == 0
          then n
          else update n cur.next (record (n cur.next) { prev = 0; sibling = cur.sibling });
    }

-- The first sibling as the top node in the place of `cur`: what `cur` was linked to.
pub relink : Hash → Node → Hash
relink h cur =
    let sib = cur.sibling in
    let n = if cur.next == 0 then h.nodes else set_prev h.nodes cur.next sib in
    let m = set_prev n sib cur.prev in
    if has_msb cur.prev
    then record h { nodes = m; slots = update h.slots (cur.prev % 2 ^ 31) sib }
    else record h { nodes = if cur.prev == 0 then m else set_next m cur.prev sib }

-- A top node with siblings: the first one takes its place, and the second one that of the first.
pub rem_top : Hash → Node → Hash
unfolding relink
rem_top h cur =
    let sib = cur.sibling in
    let second = (h.nodes sib).next in
    let n =
      if second == 0
      then h.nodes
      else update h.nodes second
          (record (h.nodes second) { sibling = (h.nodes second).prev; prev = 0 }) in
    relink
      (record h { nodes = update n sib (record (n sib) { sibling = second; next = cur.next }) }) cur

-- `xdb_hash_rem`
unfoldable pub rem : Hash → ℕ → Hash
unfolding rem_normal rem_first rem_top
rem h rid =
    let cur = h.nodes rid in
    if (cur.next + cur.prev + cur.sibling) % 2 ^ 32 == 0
    then h
    else (let out =
          if cur.sibling % 2 ^ 31 == 0
          then rem_normal h cur
          else if cur.prev == 0
          then rem_first h cur
          else rem_top h cur in
        record out {
          nodes = update out.nodes rid (record (out.nodes rid) { next = 0; prev = 0; sibling = 0 });
          row_count = out.row_count - 1;
        })

-- `xdb_hash_init`: the counts, and the slots of the file.
unfoldable pub init : Hash → Hash
init h = record h {
  row_count = 0;
  node_count = 0;
  slot_count = 0;
  slots = λ j. if ltb j h.slot_cap then 0 else h.slots j;
}
