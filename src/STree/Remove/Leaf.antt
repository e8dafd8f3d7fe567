-- ===== src/STree/Remove/Leaf.antt =====
-- `__st_remove` of a node without children.
use linux_summer.Prelude.{
  ℕ, ◌+◌, ◌≤◌, ◌<◌, ◌^◌, ◌≡◌, ◌≢◌, refl, sym, ap, subst, ◌∙◌, ◌==◌, if◌then◌else◌, update, [], ◌∷◌,
  length, arith,
}
use linux_summer.STree.{Tree, st_update}
use linux_summer.STree.Shape.{
  depth, leaf, node, Around, top, left_of, right_of, Focus, HintsTo, fill,
}
use linux_summer.STree.Frame.{Same, Replaced, Above-Replaced}
use linux_summer.STree.Place.{root_outside, one_link}
use linux_summer.STree.Climb.{up_left, up_right}
use linux_summer.STree.Update.{HintsTo-mono}
use linux_summer.STree.Attach.{depth-fill}
use linux_summer.STree.Remove.{remove_leaf}
use linux_summer.STree.Remove.Correct.{Leaves, Leaves-of_eq, update_link}

-- The parent's link to the node is cleared.
abbrev cleared : Tree → ℕ → Tree
cleared s n =
    let p = s.parent n in
    if s.left p == n
    then record s { left = update s.left p 0 }
    else record s { right = update s.right p 0 }

cleared-Replaced :
    (s : Tree) (n p : ℕ)
    → s.parent n ≡ p
    → p ≢ 0
    → (s.left p ≡ n → s.right p ≢ n)
    → Replaced s (cleared s n) n 0 p
cleared-Replaced s n p e nz one = record {
  at_root = λ z. absurd (nz z);
  root = λ z. ground arith;
  parent = λ z. ground arith;
  as_left = λ z q. (ground (arith, e, q), ground (arith, e, q));
  as_right = λ z q. (ground (arith, e, q, one), ground (arith, e, q, one));
}

cleared-Same : (s : Tree) (n p a : ℕ) → s.parent n ≡ p → a ≢ p → Same s (cleared s n) a
cleared-Same s n p a e ne = record {
  parent = ground arith;
  left = ground (arith, e);
  right = ground (arith, e);
}

cleared-HintsTo : (s : Tree) (n m : ℕ) → HintsTo s m → HintsTo (cleared s n) m
cleared-HintsTo s n m h a = let (j, e, le) = h a in (j, ground (arith, e), le)

remove_leaf-top :
    (fuel : ℕ) (s : Tree) (n p m k : ℕ)
    → Focus s top (node leaf n leaf) n p
    → HintsTo s m
    → m ≤ k
    → Leaves (remove_leaf fuel s n) [] k
unfolding remove_leaf
remove_leaf-top fuel s n p m k f h le = record {
  after = record s { root = 0 };
  done = ground (arith, f.above.1);
  tree = record { shape = leaf; links = refl; distinct = λ a. omega arith; order = refl };
  hints = HintsTo-mono s m k le h;
}

cleared-Focus :
    (s : Tree) (c : Around) (n p : ℕ)
    → Focus s c (node leaf n leaf) n p
    → p ≢ 0
    → Focus (cleared s n) c leaf 0 p
cleared-Focus s c n p f nz = record {
  above =
      Above-Replaced s (cleared s n) c n 0 p (λ a o ne. cleared-Same s n p a f.below.2 ne)
        (λ a. omega (arith, f.distinct a))
        (cleared-Replaced s n p f.below.2 nz
          (one_link s c n p f.above f.below.1 (ground (arith, f.distinct n)) nz))
        f.above;
  below = refl;
  distinct = λ a. omega (arith, f.distinct a);
}

remove_leaf-under :
    (fuel : ℕ) (s : Tree) (c : Around) (n p : ℕ)
    → Focus s c (node leaf n leaf) n p
    → p ≢ 0
    → remove_leaf fuel s n ≡ st_update fuel (cleared s n) p
unfolding remove_leaf
remove_leaf-under fuel s c n p f nz =
    let o = root_outside s c n p f.above nz in
    let ne : n ≢ s.root = ground (arith, f.distinct n, o) in ground (arith, f.below.2)

pub remove_leaf-Leaves :
    (fuel : ℕ) (s : Tree) (c : Around) (n p m k : ℕ)
    → Focus s c (node leaf n leaf) n p
    → HintsTo s m
    → length (fill c (n ∷ [])) + 1 < fuel
    → m + depth c + 2 ≤ k
    → k < 2 ^ 15
    → Leaves (remove_leaf fuel s n) (fill c []) k
remove_leaf-Leaves fuel s top n p m k f h enough le small =
    remove_leaf-top fuel s n p m k f h (omega (arith, le))
remove_leaf-Leaves fuel s (left_of c a r) n p m k f h enough le small =
    let nz : p ≢ 0 = λ z. f.above.1 (sym f.above.0 ∙ z) in
    let s' = cleared s n in
    let deep = depth-fill (left_of c a r) (n ∷ []) in
    let g =
      subst (λ z. Focus s' (left_of c a r) leaf 0 z) f.above.0
        (cleared-Focus s (left_of c a r) n p f nz) in
    Leaves-of_eq (st_update fuel s' a) (remove_leaf fuel s n) (fill (left_of c a r) [])
      (fill (left_of c a r) []) k
      (remove_leaf-under fuel s (left_of c a r) n p f nz ∙ ap (st_update fuel s') f.above.0) refl
      (update_link fuel s' c (node leaf a r) a (s'.parent a) m k (up_left s' c a r leaf 0 a g)
        (cleared-HintsTo s n m h) (omega (arith, deep)) (omega (arith, le)) small)
remove_leaf-Leaves fuel s (right_of l a c) n p m k f h enough le small =
    let nz : p ≢ 0 = λ z. f.above.1 (sym f.above.0 ∙ z) in
    let s' = cleared s n in
    let deep = depth-fill (right_of l a c) (n ∷ []) in
    let g =
      subst (λ z. Focus s' (right_of l a c) leaf 0 z) f.above.0
        (cleared-Focus s (right_of l a c) n p f nz) in
    Leaves-of_eq (st_update fuel s' a) (remove_leaf fuel s n) (fill (right_of l a c) [])
      (fill (right_of l a c) []) k
      (remove_leaf-under fuel s (right_of l a c) n p f nz ∙ ap (st_update fuel s') f.above.0) refl
      (update_link fuel s' c (node l a leaf) a (s'.parent a) m k (up_right s' l a c leaf 0 a g)
        (cleared-HintsTo s n m h) (omega (arith, deep)) (omega (arith, le)) small)
