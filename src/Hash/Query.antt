-- ===== src/Hash/Query.antt =====
-- `xdb_hash_query` and `xdb_hash_query2`. `ok` tells of a row whether the connection sees it and the
-- other conditions hold; `offer` is `xdb_rowset_add`, with true for -XDB_E_FULL.
use mathlib.Core.Option
use Prim.Native.Nat.{bit_and}
use cross_db.Base.{ℕ, zero, suc, Bool, not, ◌==◌, ◌&&◌, if◌then◌else◌, Option, none, some}
use cross_db.Hash.{Hash, Node, positive, find_top, find_valid}

-- The loop over the siblings.
unfoldable pub offer_from {ℓ} :
    {S : Type ℓ} → ℕ → (ℕ → Node) → (ℕ → Bool) → (S → ℕ → S × Bool) → ℕ → S → Option S
offer_from zero nodes ok offer rid s = none
offer_from (suc turns) nodes ok offer rid s =
    let rest = offer_from turns nodes ok offer (nodes rid).next in
    if not (positive rid)
    then some s
    else if ok rid
    then (let (s', full) = offer s rid in if full then some s' else rest s')
    else rest s

-- The rows of a key: the top node and its siblings.
unfoldable pub offer_rows {ℓ} :
    {S : Type ℓ} → ℕ → (ℕ → Node) → (ℕ → Bool) → (S → ℕ → S × Bool) → ℕ → S → Option S
offer_rows turns nodes ok offer top s =
    let rest = offer_from turns nodes ok offer (nodes top).sibling in
    if ok top then (let (s', full) = offer s top in if full then some s' else rest s') else rest s

-- `xdb_hash_query`: the row set afterwards.
unfoldable pub query {ℓ} :
    {S : Type ℓ} → ℕ → (ℕ → Bool) → ℕ → (ℕ → Bool) → (S → ℕ → S × Bool) → Hash → S → Option S
unfolding Option.bind
query turns eq hash ok offer h s =
    Option.bind (find_top turns h.nodes hash eq (h.slots (bit_and hash h.slot_mask)))
      λ top. if top == 0 then some s else offer_rows turns h.nodes ok offer top s

-- The loop of `xdb_hash_query2`, which ends at the first top node with the hash value.
unfoldable pub find_row : ℕ → (ℕ → Node) → ℕ → (ℕ → Bool) → (ℕ → Bool) → ℕ → Option ℕ
find_row zero nodes hash eq valid rid = none
find_row (suc turns) nodes hash eq valid rid =
    let rest = find_row turns nodes hash eq valid (nodes rid).next in
    if not (positive rid)
    then some 0
    else if not ((nodes rid).hash_val == hash)
    then rest
    else if eq rid && valid rid
    then some rid
    else find_valid turns nodes valid (nodes rid).sibling

-- `xdb_hash_query2`: the row found, 0 for none.
unfoldable pub query2 : ℕ → (ℕ → Bool) → (ℕ → Bool) → ℕ → Hash → Option ℕ
query2 turns eq valid hash h =
    find_row turns h.nodes hash eq valid (h.slots (bit_and hash h.slot_mask))
