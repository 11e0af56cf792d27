-- ===== src/Rbt/Around.antt =====
-- The rows before and behind a node.
use mathlib.Core.List.{append_assoc, append-nil}
use cross_db.Base.{ℕ, ◌+◌, ◌≤◌, ◌≡◌, refl, sym, ap, ◌∙◌, Bool, List, [], ◌∷◌, ◌++◌, arith}
use cross_db.Rbt.{Side, left, right}
use cross_db.Rbt.Tree.{Tree, tip, bin, rows, Frame, plug, count, at, at_self}
use cross_db.Rbt.Turn.{at_eq}
use cross_db.Rbt.Shape.{frame}

-- The rows before and behind the place below a path.
pub record Around (fs : List Frame) : Type 0 where
  pub pre : List ℕ
  pub post : List ℕ
  pub order : (w : Tree) → rows (plug fs w) ≡ pre ++ (rows w ++ post)

Around-one :
    (s : Side) (c : Bool) (k : ℕ) (b : Tree) (fs : List Frame)
    → Around fs
    → Around (frame s c k b ∷ fs)
Around-one left c k b fs o = record {
  pre = o.pre;
  post = k ∷ (rows b ++ o.post);
  order =
      λ w. o.order (bin c w k b) ∙ ap (λ v. o.pre ++ v) (append_assoc (rows w) (k ∷ rows b) o.post);
}
Around-one right c k b fs o = record {
  pre = o.pre ++ (rows b ++ k ∷ []);
  post = o.post;
  order = λ w.
      o.order (bin c b k w)
      ∙ sym (
          append_assoc o.pre (rows b ++ k ∷ []) (rows w ++ o.post)
          ∙ ap (λ v. o.pre ++ v)
              (append_assoc (rows b) (k ∷ []) (rows w ++ o.post)
                ∙ sym (append_assoc (rows b) (k ∷ rows w) o.post)));
}

pub Around-path : (fs : List Frame) → Around fs
Around-path [] = record { pre = []; post = []; order = λ w. sym (append-nil (rows w)) }
Around-path (f ∷ fs) = Around-one f.side f.red f.key f.sib fs (Around-path fs)

unfoldable pub occurs : ℕ → List ℕ → ℕ
occurs z [] = 0
occurs z (y ∷ ys) = at z y + occurs z ys

pub occurs-append : (z : ℕ) (xs ys : List ℕ) → occurs z (xs ++ ys) ≡ occurs z xs + occurs z ys
unfolding occurs
occurs-append z [] ys = omega arith
occurs-append z (x ∷ xs) ys = omega (arith, occurs-append z xs ys)

pub count-occurs : (z : ℕ) (u : Tree) → count z u ≡ occurs z (rows u)
unfolding occurs
count-occurs z tip = refl
count-occurs z (bin c l k r) =
    omega (arith, count-occurs z l, count-occurs z r, occurs-append z (rows l) (k ∷ rows r))

pub occurs-mid : (z : ℕ) (xs ys : List ℕ) → occurs z (xs ++ z ∷ ys) ≡ 1 + occurs z xs + occurs z ys
unfolding occurs
occurs-mid z xs ys = omega (arith, occurs-append z xs (z ∷ ys), at_self z)

first : List ℕ → ℕ
first [] = 0
first (x ∷ xs) = x

behind_first : List ℕ → List ℕ
behind_first [] = []
behind_first (x ∷ xs) = xs

-- A row that stands once is taken out in one way.
pub cut_out :
    (z : ℕ) (xs ys ls rs : List ℕ)
    → xs ++ z ∷ ys ≡ ls ++ z ∷ rs
    → occurs z (ls ++ z ∷ rs) ≤ 1
    → xs ++ ys ≡ ls ++ rs
unfolding occurs first behind_first
cut_out z [] ys [] rs e once = ap behind_first e
cut_out z [] ys (l ∷ ls) rs e once =
    let l_eq : z ≡ l = ap first e in
    absurd (omega (arith, once, occurs-mid z ls rs, at_eq z l l_eq))
cut_out z (x ∷ xs) ys [] rs e once =
    absurd
      (omega (arith, once, occurs-mid z xs ys, at_self z, ap (λ v. occurs z (behind_first v)) e))
cut_out z (x ∷ xs) ys (l ∷ ls) rs e once =
    rw (ap first e)
      (ap (λ v. l ∷ v) (cut_out z xs ys ls rs (ap behind_first e) (omega (arith, once))))

-- The rows around a node.
pub split_order :
    (fs : List Frame) (a : Around fs) (c : Bool) (l : Tree) (z : ℕ) (r : Tree)
    → rows (plug fs (bin c l z r)) ≡ (a.pre ++ rows l) ++ z ∷ (rows r ++ a.post)
split_order fs a c l z r =
    a.order (bin c l z r)
    ∙ ap (λ v. a.pre ++ v) (append_assoc (rows l) (z ∷ rows r) a.post)
    ∙ sym (append_assoc a.pre (rows l) (z ∷ (rows r ++ a.post)))
