-- ===== src/Hash.antt =====
-- core/xdb_hash.c and xdb_hash.h: the hash index. A slot heads a chain of top nodes, one for each key,
-- linked by `next` and `prev`; the `prev` of the first is the slot's number with the top bit. The other
-- rows with a top's key are its siblings: `sibling` of the top is the first, whose own `sibling` is the top
-- and whose `prev` is 0; the later ones have the top bit in `sibling`.
-- What the code reads of the rows is an argument: whether a row has the key that is looked for
-- (`xdb_row_isequal`, `xdb_row_isequal2`) and whether the connection sees it (`xdb_row_valid`). So are the
-- hash value of a key and whether a file can grow. The walks make at most `turns` steps; `none` is a walk
-- that goes on.
pub mod Query
pub mod Remove
pub mod Chains
pub mod Found
pub mod Place
pub mod Valid
pub mod Insert
pub mod Front
pub mod Lookup
pub mod Laws
mod Tests
use mathlib.Core.Option
use Prim.Native.Nat.{bit_and}
use cross_db.Base.{
  ℕ, zero, suc, ◌+◌, ◌-◌, ◌*◌, ◌/◌, ◌%◌, ◌^◌, Bool, true, false, not, ◌==◌, ltb, leb, ◌&&◌, ◌||◌,
  if◌then◌else◌, Option, none, some, update,
}

-- `xdb_hashNode_t`
pub record Node : Type 0 where
  pub next : ℕ
  pub prev : ℕ
  pub sibling : ℕ
  pub hash_val : ℕ

-- `xdb_hashHdr_t` and what `xdb_idxm_t` has of the index, with the nodes and the slots.
pub record Hash : Type 0 where
  pub row_count : ℕ
  pub node_count : ℕ
  pub slot_count : ℕ
  pub node_cap : ℕ
  pub slot_cap : ℕ
  pub slot_mask : ℕ
  pub nodes : ℕ → Node
  pub slots : ℕ → ℕ

-- `rid > 0`, of an `int`.
abbrev pub positive : ℕ → Bool
positive rid = ltb 0 rid && ltb rid (2 ^ 31)

-- `x & XDB_ROWID_MSB`
abbrev pub has_msb : ℕ → Bool
has_msb x = leb (2 ^ 31) x

abbrev pub set_next : (ℕ → Node) → ℕ → ℕ → ℕ → Node
set_next n i v = update n i (record (n i) { next = v })

abbrev pub set_prev : (ℕ → Node) → ℕ → ℕ → ℕ → Node
set_prev n i v = update n i (record (n i) { prev = v })

abbrev pub set_sibling : (ℕ → Node) → ℕ → ℕ → ℕ → Node
set_sibling n i v = update n i (record (n i) { sibling = v })

-- The top node of the key, from the node `rid` on: 0 if there is none.
unfoldable pub find_top : ℕ → (ℕ → Node) → ℕ → (ℕ → Bool) → ℕ → Option ℕ
find_top zero nodes hash eq rid = none
find_top (suc turns) nodes hash eq rid =
    let rest = find_top turns nodes hash eq (nodes rid).next in
    if not (positive rid)
    then some 0
    else if (nodes rid).hash_val == hash && eq rid
    then some rid
    else rest

-- A visible row among the siblings, from `rid` on: 0 if there is none.
unfoldable pub find_valid : ℕ → (ℕ → Node) → (ℕ → Bool) → ℕ → Option ℕ
find_valid zero nodes valid rid = none
find_valid (suc turns) nodes valid rid =
    let rest = find_valid turns nodes valid (nodes rid).next in
    if not (positive rid) then some 0 else if valid rid then some rid else rest

-- A node is taken out of the chain of its slot, or out of the siblings.
unfoldable pub unlink : Hash → Node → Hash
unlink h cur =
    let n = if cur.next == 0 then h.nodes else set_prev h.nodes cur.next cur.prev in
    if has_msb cur.prev
    then record h {
      nodes = n;
      slots = update h.slots (cur.prev % 2 ^ 31) cur.next;
      slot_count = if cur.next == 0 then h.slot_count - 1 else h.slot_count;
    }
    else record h { nodes = if cur.prev == 0 then n else set_next n cur.prev cur.next }

-- A node at the head of a slot's chain.
unfoldable pub push : Hash → ℕ → ℕ → Hash
push h slot rid =
    let first = h.slots slot in
    let cur = record (h.nodes rid) { next = first; prev = 2 ^ 31 + slot } in
    let n = update h.nodes rid cur in
    if first == 0
    then record h { nodes = n; slots = update h.slots slot rid; slot_count = h.slot_count + 1 }
    else record h { nodes = set_prev n first rid; slots = update h.slots slot rid }

-- The inner loop of `xdb_hash_rehash`: the chain of a slot from `rid` on.
unfoldable pub rehash_chain : ℕ → Hash → ℕ → ℕ → Option Hash
rehash_chain zero h slot rid = none
rehash_chain (suc turns) h slot rid =
    let cur = h.nodes rid in
    let new_slot = bit_and cur.hash_val h.slot_mask in
    let moved = if new_slot == slot then h else push (unlink h cur) new_slot rid in
    let rest = rehash_chain turns moved slot cur.next in
    if positive rid && leb rid h.node_cap then rest else some h

-- `xdb_hash_rehash`: the slots from `slot` on, of which `n` are left.
unfoldable pub rehash : ℕ → ℕ → ℕ → Hash → Option Hash
unfolding Option.bind
rehash turns zero slot h = some h
rehash turns (suc n) slot h =
    Option.bind (rehash_chain turns h slot (h.slots slot)) λ h'. rehash turns n (slot + 1) h'

-- `xdb_hash_add`, its first part: room for the node.
pub more_nodes : Bool → Hash → ℕ → Hash
more_nodes can_grow h new_rid =
    if ltb h.node_cap new_rid
    then record h { node_cap = if can_grow then h.node_cap * 2 else h.node_cap }
    else h

-- Twice the slots, when more than half of them are used; the new ones are cleared.
pub more_slots : ℕ → Bool → Hash → Option Hash
more_slots turns can_grow h =
    if ltb (h.slot_cap / 2) h.slot_count
    then (let cap = if can_grow then h.slot_cap * 2 else h.slot_cap in
        rehash turns h.slot_cap 0 (record h {
          slot_cap = cap;
          slot_mask = cap - 1;
          slots = λ j. if ltb j h.slot_cap then h.slots j else 0;
        }))
    else some h

-- The new row as the first sibling of the top node.
unfoldable pub add_sibling : Hash → ℕ → ℕ → Hash
add_sibling h top new_rid =
    let first = (h.nodes top).sibling in
    let n = set_sibling h.nodes top new_rid in
    let m = update n new_rid (record (n new_rid) { prev = 0; next = first; sibling = top }) in
    record h {
      nodes =
          if first == 0
          then m
          else update m first (record (m first) { prev = new_rid; sibling = 2 ^ 31 });
      row_count = h.row_count + 1;
    }

-- The new row as a top node.
unfoldable pub add_top : Hash → ℕ → ℕ → Hash
add_top h slot new_rid =
    let p = push (record h { nodes = set_sibling h.nodes new_rid 0 }) slot new_rid in
    record p { node_count = p.node_count + 1; row_count = p.row_count + 1 }

-- The rest of `xdb_hash_add`: false is -XDB_E_EXISTS. `unique` tells whether the index is unique and
-- there is a connection.
unfoldable pub insert : ℕ → Bool → (ℕ → Bool) → (ℕ → Bool) → ℕ → Hash → ℕ → Option (Bool × Hash)
unfolding Option.bind
insert turns unique valid eq hash h new_rid =
    let slot = bit_and hash h.slot_mask in
    let v = record h {
      nodes = update h.nodes new_rid (record (h.nodes new_rid) { hash_val = hash });
    } in
    Option.bind (find_top turns v.nodes hash eq (h.slots slot)) λ top.
      if top == 0
      then some (true, add_top v slot new_rid)
      else if not unique
      then some (true, add_sibling v top new_rid)
      else if valid top
      then some (false, v)
      else Option.map (λ sid. if sid == 0 then (true, add_sibling v top new_rid) else (false, v))
          (find_valid turns v.nodes valid (v.nodes top).sibling)

-- `xdb_hash_add`
unfoldable pub add :
    ℕ → Bool → Bool → Bool → (ℕ → Bool) → (ℕ → Bool) → ℕ → Hash → ℕ → Option (Bool × Hash)
unfolding Option.bind more_slots more_nodes
add turns nodes_grow slots_grow unique valid eq hash h new_rid =
    Option.bind (more_slots turns slots_grow (more_nodes nodes_grow h new_rid))
      λ h'. insert turns unique valid eq hash h' new_rid
