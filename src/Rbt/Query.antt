-- ===== src/Rbt/Query.antt =====
-- The walks through the tree, and `xdb_rbtree_query`.
use mathlib.Core.Option
use Prim.Native.Nat.{Ordering}
use cross_db.Base.{
  ℕ, zero, suc, ◌%◌, ◌^◌, Bool, true, false, not, ◌==◌, ltb, ◌&&◌, if◌then◌else◌, Option, none,
  some,
}
use cross_db.Rbt.{Rbt, RbNode, Side, left, right, other, child}

-- `xdb_rb_minimum` for the side `left`, `xdb_rb_maximum` for `right`.
unfoldable pub outermost : Side → ℕ → (ℕ → RbNode) → ℕ → Option ℕ
outermost s zero h x = none
outermost s (suc turns) h x =
    let rest = outermost s turns h (child s (h x)) in if child s (h x) == 0 then some x else rest

-- Up as long as the node is the child on the side `s`.
unfoldable pub climb : Side → ℕ → (ℕ → RbNode) → ℕ → ℕ → Option ℕ
climb s zero h x p = none
climb s (suc turns) h x p =
    let rest = climb s turns h p (h p).rb_parent in
    if not (p == 0) && (x == child s (h p)) then rest else some p

-- `xdb_rb_successor` for the side `right`, `xdb_rb_precessor` for `left`.
unfoldable pub beside : Side → ℕ → (ℕ → RbNode) → ℕ → Option ℕ
unfolding outermost climb
beside s turns h x =
    if child s (h x) == 0
    then climb s turns h x (h x).rb_parent
    else outermost (other s) turns h (child s (h x))

-- `xdb_rb_find`: the node found or 0, the last node visited, and the last comparison.
unfoldable pub find :
    ℕ → (ℕ → RbNode) → (ℕ → Ordering) → ℕ → ℕ → Ordering → Option (ℕ × ℕ × Ordering)
find zero h cmp x l last = none
find (suc turns) h cmp x l last =
    let lower = find turns h cmp (h x).rb_left x Ordering.lt in
    let higher = find turns h cmp (h x).rb_right x Ordering.gt in
    if x == 0 then some (0, l, last) else elim (cmp x) [
      | Ordering.lt ↦ lower
      | Ordering.eq ↦ some (x, x, Ordering.eq)
      | Ordering.gt ↦ higher
    ]

abbrev pub is_eq : Ordering → Bool
is_eq Ordering.eq = true
is_eq _ = false

abbrev pub is_gt : Ordering → Bool
is_gt Ordering.gt = true
is_gt _ = false

-- `xdb_rb_find_minimun`: from `x`, down to the first node that compares equal.
unfoldable pub find_minimum : ℕ → (ℕ → RbNode) → (ℕ → Ordering) → ℕ → Option ℕ
unfolding Option.bind
find_minimum zero h cmp x = none
find_minimum (suc turns) h cmp x = Option.bind (beside left turns h x) λ l.
    let rest = find_minimum turns h cmp l in
    if l == 0 then some x else if is_eq (cmp l) then rest else some x

-- Up to the first node that does not compare equal, or 0.
unfoldable pub skip_equal : ℕ → (ℕ → RbNode) → (ℕ → Ordering) → ℕ → Option ℕ
unfolding Option.bind
skip_equal zero h cmp x = none
skip_equal (suc turns) h cmp x = Option.bind (beside right turns h x) λ n.
    let rest = skip_equal turns h cmp n in
    if n == 0 then some 0 else if is_eq (cmp n) then rest else some n

-- `match_opt`
pub data MatchOpt : Type 0 where
  tok_eq : MatchOpt
  tok_ge : MatchOpt
  tok_gt : MatchOpt
  tok_lt : MatchOpt
  tok_le : MatchOpt

-- What the filter asks for: `match_opt`, `match_cnt` and the fields of the index, `xdb_row_cmp` with the
-- values, `xdb_row_isequal` without the last one, and of a row with an id whether the connection
-- sees it, and whether the other conditions hold.
pub record Filter : Type 0 where
  pub match_opt : MatchOpt
  pub match_cnt : ℕ
  pub fld_count : ℕ
  pub cmp : ℕ → Ordering
  pub prefix_eq : ℕ → Bool
  pub row_valid : ℕ → ℕ → Bool
  pub and_match : ℕ → Bool

abbrev pub is_tok_eq : MatchOpt → Bool
is_tok_eq tok_eq = true
is_tok_eq _ = false

-- The first node of a query upwards from the values: EQ, GE and GT.
unfoldable pub start_up : ℕ → Filter → Rbt → Option ℕ
unfolding Option.bind
start_up turns f t = Option.bind (find turns t.nodes f.cmp t.rb_root 0 Ordering.eq) λ d.
    let (x, l, last) = d in
    if x == 0
    then (if is_tok_eq f.match_opt
        then some 0
        else if is_gt last
        then beside right turns t.nodes l
        else some l)
    else elim f.match_opt [
      | tok_gt ↦ skip_equal turns t.nodes f.cmp x
      | _ ↦ if ltb f.match_cnt f.fld_count then find_minimum turns t.nodes f.cmp x else some x
    ]

-- The first node of a query downwards: LT and LE.
unfoldable pub start_down : ℕ → Filter → Rbt → Option ℕ
unfolding Option.bind
start_down turns f t =
    if f.fld_count == 1
    then outermost left turns t.nodes t.rb_root
    else Option.bind (find turns t.nodes f.cmp t.rb_root 0 Ordering.eq) λ d.
      let (x, l, last) = d in
      if x == 0 then some (if is_gt last then l else 0) else find_minimum turns t.nodes f.cmp x

-- Rows are offered by `xdb_rowset_add`, with true for -XDB_E_FULL.
module _ {ℓ} {S : Type ℓ} (f : Filter) (offer : S → ℕ → S × Bool) where
  -- A row with the id that its visibility is asked for: the row set, and whether it is full.
  unfoldable pub offer_row : ℕ → ℕ → S → S × Bool
  offer_row row rid s =
      if f.row_valid row rid
      then (if f.and_match row then offer s row else (s, false))
      else (s, false)

  -- The loop over the siblings of `x`.
  unfoldable pub offer_sibs : ℕ → (ℕ → RbNode) → ℕ → ℕ → S → Option (S × Bool)
  offer_sibs zero h x sib s = none
  offer_sibs (suc turns) h x sib s =
      let (s', full) = offer_row sib x s in
      let rest = offer_sibs turns h x (h sib).rb_right s' in
      if sib == 0 then some (s, false) else if full then some (s', true) else rest

  -- The loop over the nodes, from `x` on.
  unfoldable pub walk : ℕ → (ℕ → RbNode) → ℕ → S → Option S
  unfolding Option.bind
  walk zero h x s = none
  walk (suc turns) h x s =
      if not (is_tok_eq f.match_opt) && not (f.prefix_eq x)
      then some s
      else (let (s1, full) = offer_row x x s in
          if full
          then some s1
          else Option.bind (offer_sibs turns h x ((h x).color_sibling % 2 ^ 31) s1) λ r.
            if r.1
            then some r.0
            else if f.match_cnt == f.fld_count && is_tok_eq f.match_opt
            then some r.0
            else Option.bind (beside right turns h x) λ n.
              let rest = walk turns h n r.0 in
              if n == 0
              then some r.0
              else if is_tok_eq f.match_opt && not (is_eq (f.cmp n))
              then some r.0
              else rest)

  -- `xdb_rbtree_query`: the row set afterwards.
  unfoldable pub query : ℕ → Rbt → S → Option S
  unfolding Option.bind
  query turns t s =
      Option.bind
        (elim f.match_opt [
          | tok_lt ↦ start_down turns f t
          | tok_le ↦ start_down turns f t
          | _ ↦ start_up turns f t
        ])
        λ x. if x == 0 then some s else walk turns t.nodes x s
