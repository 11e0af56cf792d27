-- ===== src/Rbt/Removed.antt =====
-- `xdb_rbtree_rem` of any row without siblings leaves a red-black tree.
use mathlib.Core.Option
use cross_db.Base.{
  ℕ, zero, suc, ◌+◌, ◌*◌, ◌^◌, ◌≤◌, ◌<◌, ◌≡◌, ◌≢◌, refl, sym, ap, ◌∙◌, Bool, true, false, some,
  List, [], ◌∷◌, ◌++◌, arith, subst, length, ne→==, inl, inr,
}
use cross_db.Rbt.{Rbt, Side, left, right, child, is_red}
use cross_db.Rbt.Remove.{rem_node}
use cross_db.Rbt.Tree.{Tree, tip, bin, rows, mk, Frame, plug, count}
use cross_db.Rbt.Shape.{frame, Holds, step_down}
use cross_db.Rbt.Step.{NullBlack}
use cross_db.Rbt.Ended.{IsTree}
use cross_db.Rbt.Descend.{depth, max_left, max_right}
use cross_db.Rbt.Landing.{SoundAround, sound_down}
use cross_db.Rbt.Balance.{depth-lt}
use cross_db.Rbt.Cut.{repaired, repaired-IsTree}
use cross_db.Rbt.Seek.{seek}
use cross_db.Rbt.Around.{
  Around, Around-path, occurs, count-occurs, occurs-mid, cut_out, split_order,
}
use cross_db.Base.{length-append}
use cross_db.Rbt.Query.{outermost}
use cross_db.Rbt.Remove.{rem_inner}
use cross_db.Rbt.Inner.{least_of, outermost_least, dive}
use cross_db.Rbt.Inside.{Tall, Tall-bin, inside}
use cross_db.Rbt.Outer.{place-Sound, counted, counted-IsTree, taken}

plug-append : (ds gs : List Frame) (v : Tree) → plug (ds ++ gs) v ≡ plug gs (plug ds v)
plug-append [] gs v = refl
plug-append (d ∷ ds) gs v = plug-append ds gs (mk d.side d.red v d.key d.sib)

depth-mk : (s : Side) (c : Bool) (a : Tree) (k : ℕ) (b : Tree) → depth a < depth (mk s c a k b)
depth-mk left c a k b = omega (arith, max_left (depth a) (depth b))
depth-mk right c a k b = omega (arith, max_right (depth b) (depth a))

depth-plug : (ds : List Frame) (v : Tree) → length ds + depth v ≤ depth (plug ds v)
depth-plug [] v = omega arith
depth-plug (d ∷ ds) v =
    omega
      (arith, depth-plug ds (mk d.side d.red v d.key d.sib), depth-mk d.side d.red v d.key d.sib)

-- The row of a node is no matter to its colours.
other_row :
    (c : Bool) (a : Tree) (z y : ℕ) (b : Tree) (fs : List Frame)
    → SoundAround (bin c a z b) fs
    → SoundAround (bin c a y b) fs
other_row true a z y b fs s = s
other_row false a z y b fs (zero, su, path, under) = absurd su
other_row false a z y b fs (suc n, su, path, under) = (suc n, su, path, under)

dive-Sound :
    (ds : List Frame) (v : Tree) (fs : List Frame)
    → SoundAround (plug ds v) fs
    → SoundAround v (ds ++ fs)
dive-Sound [] v fs sound = sound
dive-Sound (d ∷ ds) v fs sound =
    sound_down d.side d.red v d.key d.sib (ds ++ fs)
      (dive-Sound ds (mk d.side d.red v d.key d.sib) fs sound)

takes_inner :
    (turns : ℕ) (t t' : Rbt) (z y : ℕ) (c : Bool)
    → (t.nodes z).rb_left ≢ 0
    → (t.nodes z).rb_right ≢ 0
    → outermost left turns t.nodes (t.nodes z).rb_right ≡ some y
    → is_red t.nodes y ≡ c
    → repaired turns c (rem_inner t z y).0 (rem_inner t z y).1 ≡ some t'
    → rem_node turns t z ≡ some (counted t')
unfolding rem_node counted Option.bind
takes_inner turns t t' z y c l r o color e =
    rw (ne→== (t.nodes z).rb_left 0 l, ne→== (t.nodes z).rb_right 0 r, o, color, e) refl

two_children :
    (turns : ℕ) (t : Rbt) (z x p : ℕ) (c : Bool) (a : Tree) (e : Bool) (l : Tree) (k : ℕ) (r : Tree)
    (fs : List Frame) (o : Around fs)
    → Holds t x p (bin c a z (bin e l k r)) fs
    → SoundAround (bin c a z (bin e l k r)) fs
    → NullBlack t
    → Tall a
    → length fs + depth (bin c a z (bin e l k r)) ≤ turns
    → (t' : Rbt) × (rem_node turns t z ≡ some t')
      × IsTree t' ((o.pre ++ rows a) ++ (rows (bin e l k r) ++ o.post))
two_children turns t z x p c a e l k r fs o holds sound null tall enough =
    let m = least_of e l k r in
    let b = plug m.down (bin m.red tip m.key m.rest) in
    let holds' : Holds t x p (bin c a z b) fs =
      subst (λ v. Holds t x p (bin c a z v) fs) (sym m.whole_eq) holds in
    let sound' : SoundAround (bin c a z b) fs =
      subst (λ v. SoundAround (bin c a z v) fs) (sym m.whole_eq) sound in
    let gs = frame right c m.key a ∷ fs in
    let (q, p', kept, noted) = inside t x p z m.key c m.red a m.rest m.down fs holds' null tall in
    let (n, sb, path) = place-Sound left m.red m.key m.rest (m.down ++ gs) (
      dive-Sound m.down (bin m.red tip m.key m.rest) gs
        (sound_down right c b m.key a fs (other_row c a z m.key b fs sound'))) in
    let (xy, yp, at_y) =
      dive t (child right (t.nodes z)) z m.down (bin m.red tip m.key m.rest)
        (frame right c z a ∷ fs) (step_down t x p right c b z a fs holds') in
    let out = rem_inner t z m.key in
    let short : length (m.down ++ gs) < turns = omega (
      arith,
      enough,
      length-append m.down gs,
      depth-plug m.down (bin m.red tip m.key m.rest),
      ap depth m.whole_eq,
      max_right (depth a) (depth (bin e l k r)),
    ) in
    let (t', runs, is_tree) =
      repaired-IsTree turns out.0 q out.1 p' m.red m.rest n (m.down ++ gs) kept noted sb path
        short in
    let order : rows (plug (m.down ++ gs) m.rest)
        ≡ (o.pre ++ rows a) ++ (rows (bin e l k r) ++ o.post) =
      ap rows (plug-append m.down gs m.rest)
      ∙ split_order fs o c a m.key (plug m.down m.rest)
      ∙ ap (λ v. (o.pre ++ rows a) ++ (v ++ o.post)) (sym m.in_order) in
    (
      counted t',
      takes_inner turns t t' z m.key m.red (tall t.nodes z (t.nodes z).rb_left holds.0.4)
          (λ i. holds.0.5.1 (sym holds.0.5.0 ∙ i))
          (outermost_least turns t.nodes z (t.nodes z).rb_right e l k r holds.0.5
            (omega (arith, enough, max_right (depth a) (depth (bin e l k r)))))
          at_y.0.3 runs,
      counted-IsTree t' _ (subst (λ v. IsTree t' v) order is_tree),
    )

taken_any :
    (turns : ℕ) (t : Rbt) (z x p : ℕ) (c : Bool) (l r : Tree) (fs : List Frame) (a : Around fs)
    → Holds t x p (bin c l z r) fs
    → SoundAround (bin c l z r) fs
    → NullBlack t
    → length fs + depth (bin c l z r) ≤ turns
    → (t' : Rbt) × (rem_node turns t z ≡ some t')
      × IsTree t' ((a.pre ++ rows l) ++ (rows r ++ a.post))
taken_any turns t z x p c tip r fs a holds sound null enough =
    taken turns t z x p c tip r fs a holds sound null (inl holds.0.4) (omega (arith, enough))
taken_any turns t z x p c (bin d i j k) tip fs a holds sound null enough =
    taken turns t z x p c (bin d i j k) tip fs a holds sound null (inr holds.0.5)
      (omega (arith, enough))
taken_any turns t z x p c (bin d i j k) (bin d2 i2 j2 k2) fs a holds sound null enough =
    two_children turns t z x p c (bin d i j k) d2 i2 j2 k2 fs a holds sound null (Tall-bin d i j k)
      enough

-- `xdb_rbtree_rem` of a row without siblings, in an index of fewer than 2 ^ k rows, where the loop of `xdb_rb_delete_fixup` has 2 * k turns: the loop ends, and the index holds
-- a red-black tree without the row, the others in their order.
pub rem_node-IsTree :
    (turns k z : ℕ) (t : Rbt) (ls rs : List ℕ)
    → IsTree t (ls ++ z ∷ rs)
    → length (ls ++ z ∷ rs) + 1 < 2 ^ k
    → 2 * k ≤ turns
    → (t' : Rbt) × (rem_node turns t z ≡ some t') × IsTree t' (ls ++ rs)
rem_node-IsTree turns k z t ls rs i few enough =
    let u = i.tree in
    let in_list : count z u ≡ occurs z (ls ++ z ∷ rs) =
      count-occurs z u ∙ ap (λ v. occurs z v) i.in_order in
    let deep : depth u < 2 * k =
      depth-lt u i.height k i.sound i.black
        (subst (λ v. length v + 1 < 2 ^ k) (sym i.in_order) few) in
    let f =
      seek t z t.rb_root 0 u [] (i.held, (refl, refl), λ j. omega (arith, i.once j))
        (i.height, i.sound, tt, λ e. absurd (cc (e, i.black)))
        (omega (arith, in_list, occurs-mid z ls rs)) in
    let a = Around-path f.path in
    let (t', runs, is_tree) =
      taken_any turns t z f.x f.p f.red f.before f.behind f.path a f.holds f.sound i.null_black
        (omega (arith, f.short, deep, enough)) in
    let order : (a.pre ++ rows f.before) ++ (rows f.behind ++ a.post) ≡ ls ++ rs =
      cut_out z (a.pre ++ rows f.before) (rows f.behind ++ a.post) ls rs
        (sym (split_order f.path a f.red f.before z f.behind) ∙ ap rows f.whole_eq ∙ i.in_order)
        (omega (arith, in_list, i.once z)) in
    (t', runs, subst (λ v. IsTree t' v) order is_tree)
