-- ===== src/STree/Remove/Correct.antt =====
-- `__st_remove`: the tree without the node, and its other nodes in their order.
use linux_summer.Prelude.{
  ℕ, zero, suc, ◌+◌, ◌≤◌, ◌<◌, ◌^◌, ◌≡◌, sym, ap, subst, ◌∙◌, Option, some, List, [], ◌∷◌, ◌++◌,
  length, length-append, arith,
}
use mathlib.Core.List.{append-nil}
use linux_summer.STree.{Tree, move_root, st_update}
use linux_summer.STree.Shape.{
  Shape, leaf, node, Around, left_of, right_of, Focus, IsTree, HintsTo, inorder, fill, depth,
}
use linux_summer.STree.Climb.{Focus-whole}
use linux_summer.STree.Update.{Updated, HintsTo-mono, Updated-null, st_update-IsTree}
use linux_summer.STree.Attach.{depth-fill}
use linux_summer.STree.Find.{down_left, down_right}
use linux_summer.STree.Remove.{st_replace_right, st_replace_left, remove_right, remove_left}
use linux_summer.STree.Remove.Spine.{least, drop_least, inorder-least, st_first-least}
use linux_summer.STree.Remove.SpineLeft.{
  greatest, drop_greatest, inorder-greatest, st_last-greatest,
}
use linux_summer.STree.Remove.Replace.{st_replace_right-Focus}
use linux_summer.STree.Remove.ReplaceLeft.{st_replace_left-Focus}
use linux_summer.STree.Remove.Hints.{replaced_right-HintsTo, replaced_left-HintsTo}

-- What `run` leaves: a tree with the nodes `xs`, and no hint above `m`.
pub record Leaves (run : Option Tree) (xs : List ℕ) (m : ℕ) : Type 0 where
  pub after : Tree
  pub done : run ≡ some after
  pub tree : IsTree after xs
  pub hints : HintsTo after m

Updated-Leaves :
    (fuel : ℕ) (s : Tree) (n : ℕ) (xs : List ℕ) (m k : ℕ)
    → m ≤ k
    → Updated fuel s n xs m
    → Leaves (st_update fuel s n) xs k
Updated-Leaves fuel s n xs m k le u = record {
  after = u.after;
  done = u.run;
  tree = u.tree;
  hints = HintsTo-mono u.after m k le u.hints;
}

-- `st_update` at the root of a subtree, which may be empty.
pub update_link :
    (fuel : ℕ) (s : Tree) (c : Around) (t : Shape) (x p m k : ℕ)
    → Focus s c t x p
    → HintsTo s m
    → depth c + 1 < fuel
    → m + depth c + 1 ≤ k
    → k < 2 ^ 15
    → Leaves (st_update fuel s x) (fill c (inorder t)) k
update_link zero s c t x p m k f h enough le small = absurd (omega arith)
update_link (suc fuel) s c leaf x p m k f h enough le small =
    Updated-Leaves (suc fuel) s x (fill c []) m k (omega arith)
      (Updated-null fuel s x (fill c []) m f.below (Focus-whole s c leaf x p f) h)
update_link (suc fuel) s c (node l a r) x p m k f h enough le small =
    subst (λ z. Leaves (st_update (suc fuel) s z) (fill c (inorder (node l a r))) k) (sym f.below.0)
      (Updated-Leaves (suc fuel) s a (fill c (inorder (node l a r))) (m + depth c + 1) k le (
        st_update-IsTree (suc fuel) s c l r a p m
          (subst (λ z. Focus s c (node l a r) z p) f.below.0 f) h enough (omega arith)))

pub Leaves-of_eq :
    (run run' : Option Tree) (xs ys : List ℕ) (k : ℕ)
    → run' ≡ run
    → xs ≡ ys
    → Leaves run xs k
    → Leaves run' ys k
Leaves-of_eq run run' xs ys k e ex u =
    subst (λ z. Leaves z ys k) (sym e) (subst (λ z. Leaves run z k) ex u)

pub remove_right-Leaves :
    (fuel : ℕ) (s : Tree) (c : Around) (L l : Shape) (a : ℕ) (r : Shape) (n p m k : ℕ)
    → Focus s c (node L n (node l a r)) n p
    → HintsTo s m
    → length (fill c (inorder (node L n (node l a r)))) + 1 < fuel
    → m + depth c + 2 ≤ k
    → k < 2 ^ 15
    → Leaves (remove_right fuel s n) (fill c (inorder L ++ inorder (node l a r))) k
unfolding remove_right
remove_right-Leaves fuel s c L l a r n p m k f h enough le small =
    let R = node l a r in
    let y = least R in
    let t = st_replace_right (move_root s n y) n y in
    let deep = depth-fill c (inorder (node L n R)) in
    let long = length-append (inorder L) (n ∷ inorder R) in
    let first = st_first-least fuel s n l a r (s.right n) f.below.4 (omega (arith, deep, long)) in
    let g = st_replace_right-Focus s c L l a r n p f in
    Leaves-of_eq (st_update fuel t (t.right y)) (remove_right fuel s n)
      (fill c (inorder L ++ (y ∷ inorder (drop_least R)))) (fill c (inorder L ++ inorder R)) k
      (ground (arith, first)) (ap (λ z. fill c (inorder L ++ z)) (sym (inorder-least l a r)))
      (update_link fuel t (right_of L y c) (drop_least R) (t.right y) y m k
        (down_right t c L (drop_least R) y p g) (replaced_right-HintsTo s n y m h)
        (omega (arith, deep, long)) (omega (arith, le)) small)

pub remove_left-Leaves :
    (fuel : ℕ) (s : Tree) (c : Around) (l r : Shape) (a : ℕ) (n p m k : ℕ)
    → Focus s c (node (node r a l) n leaf) n p
    → HintsTo s m
    → length (fill c (inorder (node (node r a l) n leaf))) + 1 < fuel
    → m + depth c + 2 ≤ k
    → k < 2 ^ 15
    → Leaves (remove_left fuel s n) (fill c (inorder (node r a l) ++ [])) k
unfolding remove_left
remove_left-Leaves fuel s c l r a n p m k f h enough le small =
    let L = node r a l in
    let y = greatest L in
    let t = st_replace_left (move_root s n y) n y in
    let deep = depth-fill c (inorder (node L n leaf)) in
    let long = length-append (inorder L) (n ∷ []) in
    let last = st_last-greatest fuel s n l a r (s.left n) f.below.3 (omega (arith, deep, long)) in
    let g = st_replace_left-Focus s c leaf l a r n p f in
    Leaves-of_eq (st_update fuel t (t.left y)) (remove_left fuel s n)
      (fill c (inorder (drop_greatest L) ++ (y ∷ []))) (fill c (inorder L ++ [])) k
      (ground (arith, last))
      (ap (fill c) (sym (inorder-greatest l a r) ∙ sym (append-nil (inorder L))))
      (update_link fuel t (left_of c y leaf) (drop_greatest L) (t.left y) y m k
        (down_left t c (drop_greatest L) leaf y p g) (replaced_left-HintsTo s n y m h)
        (omega (arith, deep, long)) (omega (arith, le)) small)
