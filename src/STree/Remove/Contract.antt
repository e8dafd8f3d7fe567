-- ===== src/STree/Remove/Contract.antt =====
-- What `__st_remove` and `st_remove` promise of a tree.
use linux_summer.Prelude.{
  ℕ, ◌+◌, ◌≤◌, ◌<◌, ◌^◌, ◌≡◌, ◌≢◌, refl, sym, ap, subst, ◌∙◌, true, false, some, List, [], ◌++◌,
  length, count, arith,
}
use linux_summer.Prelude.Int.{ℤ, pos}
use linux_summer.STree.{Tree, st_find, st_insert}
use linux_summer.STree.Update.{HintsTo-mono}
use linux_summer.STree.Shape.{
  depth, tall, tall-node, tall-inorder, Shape, leaf, node, top, Around, Focus, IsTree, HintsTo,
  inorder, fill,
}
use linux_summer.STree.Search.{seek, place, Rising, place-Rising, length-place}
use linux_summer.STree.Attach.{Creates, count-inorder}
use linux_summer.STree.Find.{against}
use linux_summer.STree.Contract.{st_find-seek, st_insert-place, null_free}
use linux_summer.STree.Remove.{remove_node, remove_right, remove_left, remove_leaf, st_remove}
use linux_summer.STree.Remove.Erase.{erase, erase-fill, within-Stands}
use linux_summer.STree.Remove.Order.{
  length-erase, Rising-erase, count-seek, seek-erase, erase-place,
}
use linux_summer.STree.Remove.Correct.{
  Leaves, Leaves-of_eq, remove_right-Leaves, remove_left-Leaves,
}
use linux_summer.STree.Remove.Leaf.{remove_leaf-Leaves}

remove_node-Leaves :
    (fuel : ℕ) (s : Tree) (c : Around) (L R : Shape) (n p m k : ℕ)
    → Focus s c (node L n R) n p
    → HintsTo s m
    → length (fill c (inorder (node L n R))) + 1 < fuel
    → m + depth c + 2 ≤ k
    → k < 2 ^ 15
    → Leaves (remove_node fuel s n) (fill c (inorder L ++ inorder R)) k
unfolding remove_node
remove_node-Leaves fuel s c leaf leaf n p m k f h enough le small =
    Leaves-of_eq (remove_leaf fuel s n) (remove_node fuel s n) (fill c []) (fill c []) k
      (ground (arith, f.below.3, f.below.4)) refl
      (remove_leaf-Leaves fuel s c n p m k f h enough le small)
remove_node-Leaves fuel s c (node r a l) leaf n p m k f h enough le small =
    let xs = fill c (inorder (node r a l) ++ []) in
    Leaves-of_eq (remove_left fuel s n) (remove_node fuel s n) xs xs k
      (ground (arith, f.below.4, f.below.3.0, f.below.3.1)) refl
      (remove_left-Leaves fuel s c l r a n p m k f h enough le small)
remove_node-Leaves fuel s c L (node l a r) n p m k f h enough le small =
    let xs = fill c (inorder L ++ inorder (node l a r)) in
    Leaves-of_eq (remove_right fuel s n) (remove_node fuel s n) xs xs k
      (ground (arith, f.below.4.0, f.below.4.1)) refl
      (remove_right-Leaves fuel s c L l a r n p m k f h enough le small)

whole-Focus : (s : Tree) (xs : List ℕ) (t : IsTree s xs) → Focus s top t.shape s.root 0
whole-Focus s xs t = record {
  above = (refl, refl);
  below = t.links;
  distinct = λ a. omega (arith, t.distinct a);
}

-- `__st_remove` of a node of the tree comes back with a tree of the other nodes, in their order, if no hint
-- is above `m` before and `m` plus the height of the tree plus 1 is below 2 ^ 15; no hint is above this sum
-- then.
pub remove_node-erase :
    (fuel : ℕ) (s : Tree) (n : ℕ) (xs : List ℕ) (m : ℕ)
    → (t : IsTree s xs) → HintsTo s m
    → 0 < count n xs
    → length xs + 1 < fuel
    → m + tall t.shape + 1 < 2 ^ 15
    → Leaves (remove_node fuel s n) (erase n xs) (m + tall t.shape + 1)
remove_node-erase fuel s n xs m t h there enough small =
    let f = whole-Focus s xs t in
    let is = ap (count n) t.order in
    let w =
      within-Stands s n top t.shape s.root 0 (tall t.shape) (omega arith) f
        (omega (arith, is, count-inorder t.shape n)) in
    let o : fill w.around (inorder (node w.l n w.r)) ≡ xs = w.order ∙ t.order in
    let d = w.at.distinct n in
    Leaves-of_eq (remove_node fuel s n) (remove_node fuel s n)
      (fill w.around (inorder w.l ++ inorder w.r)) (erase n xs) (m + tall t.shape + 1) refl
      (sym (
          erase-fill n w.around (inorder w.l) (inorder w.r) (ground (arith, d))
            (ground (arith, d, count-inorder w.l n)))
        ∙ ap (erase n) o)
      (remove_node-Leaves fuel s w.around w.l w.r n w.parent m (m + tall t.shape + 1) w.at h
        (omega (arith, ap length o)) (omega (arith, w.deep, tall-node w.l n w.r)) small)

-- What `st_remove` of a node's key leaves: its result, and a tree without the node.
pub record Removed {K : Type 0} (cmp : ℕ → K → ℤ) (fuel : ℕ) (s : Tree) (key : K) (n : ℕ)
    (xs : List ℕ) (m : ℕ) : Type 0 where
  pub after : Tree
  pub run : st_remove cmp fuel s key ≡ some (after, true, n)
  pub tree : IsTree after xs
  pub hints : HintsTo after m

-- `st_remove` of a key that no node has returns -1 and leaves the tree as it is.
pub st_remove-absent :
    {K : Type 0} (cmp : ℕ → K → ℤ) (fuel : ℕ) (s : Tree) (key : K) (xs : List ℕ)
    → IsTree s xs
    → Rising (against cmp key) xs
    → seek (against cmp key) xs ≡ 0
    → length xs < fuel
    → st_remove cmp fuel s key ≡ some (s, false, 0)
unfolding st_remove
st_remove-absent cmp fuel s key xs t r absent enough =
    ground (arith, st_find-seek cmp key fuel s xs t r enough, absent)

-- `st_remove` of a key that a node has hands that node to `destroy_node` and returns 0, and leaves a
-- tree of the other nodes, in their order, if no hint is above `m` before and `m` plus the height of the
-- tree plus 1 is below 2 ^ 15; no hint is above this sum then.
pub st_remove-erase :
    {K : Type 0} (cmp : ℕ → K → ℤ) (fuel : ℕ) (s : Tree) (key : K) (xs : List ℕ) (m : ℕ)
    → (t : IsTree s xs) → HintsTo s m
    → Rising (against cmp key) xs
    → seek (against cmp key) xs ≢ 0
    → length xs + 1 < fuel
    → m + tall t.shape + 1 < 2 ^ 15
    → Removed cmp fuel s key
        (seek (against cmp key) xs)
        (erase (seek (against cmp key) xs) xs)
        (m + tall t.shape + 1)
unfolding st_remove
st_remove-erase cmp fuel s key xs m t h r present enough small =
    let n = seek (against cmp key) xs in
    let u =
      remove_node-erase fuel s n xs m t h (count-seek (against cmp key) xs present) enough small in
    record {
      after = u.after;
      run = ground (arith, st_find-seek cmp key fuel s xs t r (omega arith), present, u.done);
      tree = u.tree;
      hints = u.hints;
    }

-- After `st_remove` of a key that a node had, `st_find` finds no node with the key, if no hint is above `m`
-- before and `m` plus the height of the tree plus 1 is below 2 ^ 15.
pub st_remove-find :
    {K : Type 0} (cmp : ℕ → K → ℤ) (fuel : ℕ) (s : Tree) (key : K) (xs : List ℕ) (m : ℕ)
    → (t : IsTree s xs) → HintsTo s m
    → Rising (against cmp key) xs
    → seek (against cmp key) xs ≢ 0
    → length xs + 1 < fuel
    → m + tall t.shape + 1 < 2 ^ 15
    → (s' : Tree) × (st_remove cmp fuel s key ≡ some (s', true, seek (against cmp key) xs))
      × (st_find cmp key fuel s' ≡ some 0)
st_remove-find cmp fuel s key xs m t h r present enough small =
    let v = against cmp key in
    let n = seek v xs in
    let u = st_remove-erase cmp fuel s key xs m t h r present enough small in
    (
      u.after,
      u.run,
      st_find-seek cmp key fuel u.after (erase n xs) u.tree (Rising-erase v n xs r)
            (omega (arith, length-erase n xs))
          ∙ ap some (seek-erase v n xs r refl present),
    )

-- `st_insert` of a key that no node has, and then `st_remove` of it, bring back the nodes in their
-- old order, if no hint is above `m` before and `m` plus the height of the tree plus the number of its nodes
-- plus 3 is below 2 ^ 15; no hint is above this sum then.
pub st_insert-st_remove :
    {K : Type 0} (cmp : ℕ → K → ℤ) (create : Tree → K → Tree × ℕ) (fuel : ℕ) (s : Tree) (key : K)
    (xs : List ℕ) (m : ℕ)
    → (t : IsTree s xs) → HintsTo s m
    → Rising (against cmp key) xs
    → seek (against cmp key) xs ≡ 0
    → Creates s (create s key).0 (create s key).1 xs
    → cmp (create s key).1 key ≡ pos 0
    → length xs + 2 < fuel
    → m + tall t.shape + length xs + 3 < 2 ^ 15
    → (s' : Tree) × (st_insert cmp create fuel s key ≡ some (s', true))
      × Removed cmp fuel s' key (create s key).1 xs (m + tall t.shape + length xs + 3)
st_insert-st_remove cmp create fuel s key xs m t h r absent k e enough small =
    let v = against cmp key in
    let n = (create s key).1 in
    let u = st_insert-place cmp create fuel s key xs m t h r absent k (omega arith) (omega arith) in
    let (r', found) = place-Rising v n xs e r absent (null_free s xs t) in
    let grown = length-place v n xs in
    let low : tall u.tree.shape ≤ length xs + 1 =
      omega (arith, tall-inorder u.tree.shape, ap length u.tree.order, grown) in
    let w =
      st_remove-erase cmp fuel u.after key (place v n xs) (m + tall t.shape + 1) u.tree u.hints r'
        (λ z. k.nonzero (sym found ∙ z)) (omega (arith, grown)) (omega (arith, low)) in
    (
      u.after,
      u.run,
      record {
        after = w.after;
        run = subst (λ z. st_remove cmp fuel u.after key ≡ some (w.after, true, z)) found w.run;
        tree =
            subst (IsTree w.after)
              (ap (λ z. erase z (place v n xs)) found ∙ erase-place v n xs k.unused) w.tree;
        hints =
            HintsTo-mono w.after (m + tall t.shape + 1 + tall u.tree.shape + 1)
              (m + tall t.shape + length xs + 3) (omega (arith, low)) w.hints;
      },
    )
