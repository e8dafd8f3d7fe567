-- ===== src/STree/Put.antt =====
-- `st_insert` once the place of the new node is known.
use linux_summer.Prelude.{
  ℕ, ◌+◌, ◌≤◌, ◌<◌, ◌^◌, ◌≡◌, ◌≢◌, refl, sym, subst, arith, some, List, [], ◌∷◌,
}
use linux_summer.STree.{Tree, Dir, left_dir, right_dir, none_dir, attach, insert_at, put_new}
use linux_summer.STree.Shape.{
  Shape, leaf, node, Around, top, left_of, right_of, Focus, fill, outside, IsTree, HintsTo, depth,
}
use linux_summer.STree.Update.{st_update-IsTree, HintsTo-mono}
use linux_summer.STree.Find.{At}
use linux_summer.STree.Attach.{Above-root_nonzero, attach-left, attach-right}

-- `put_new` comes back with a tree of the nodes `xs`.
pub record Settled (fuel : ℕ) (s : Tree) (n p : ℕ) (d : Dir) (xs : List ℕ) (m : ℕ) : Type 0 where
  pub after : Tree
  pub run : put_new fuel s n p d ≡ some after
  pub tree : IsTree after xs
  pub hints : HintsTo after m

put_top :
    (fuel : ℕ) (s : Tree) (n p m : ℕ)
    → n ≢ 0
    → s.root ≡ 0
    → s.parent n ≡ 0
    → s.left n ≡ 0
    → s.right n ≡ 0
    → HintsTo s m
    → Settled fuel s n p none_dir (n ∷ []) m
unfolding put_new
put_top fuel s n p m nz e pn ln rn h = record {
  after = record s { root = n };
  run = ground (arith, e);
  tree = record {
    shape = node leaf n leaf;
    links = (refl, nz, pn, ln, rn);
    distinct = λ a. ground arith;
    order = refl;
  };
  hints = h;
}

attach-HintsTo : (s : Tree) (a n : ℕ) (d : Dir) (m : ℕ) → HintsTo s m → HintsTo (attach s a n d) m
unfolding attach
attach-HintsTo s a n left_dir m h = h
attach-HintsTo s a n right_dir m h = h
attach-HintsTo s a n none_dir m h = h

put_left :
    (fuel : ℕ) (s : Tree) (c : Around) (a : ℕ) (r : Shape) (n m : ℕ)
    → n ≢ 0
    → outside (left_of c a r) n ≡ 0
    → s.left n ≡ 0
    → s.right n ≡ 0
    → Focus s (left_of c a r) leaf 0 a
    → HintsTo s m
    → depth (left_of c a r) + 1 < fuel
    → m + depth (left_of c a r) + 1 < 2 ^ 15
    → Settled fuel s n a left_dir (fill (left_of c a r) (n ∷ [])) (m + depth (left_of c a r) + 1)
unfolding put_new insert_at
put_left fuel s c a r n m nz o ln rn f h enough small =
    let u =
      st_update-IsTree fuel (attach s a n left_dir) (left_of c a r) leaf leaf n a m
        (attach-left s c a r n nz o ln rn f) (attach-HintsTo s a n left_dir m h) enough small in
    record {
      after = u.after;
      run = ground (arith, u.run, Above-root_nonzero s (left_of c a r) 0 a f.above f.above.1);
      tree = u.tree;
      hints = u.hints;
    }

put_right :
    (fuel : ℕ) (s : Tree) (l : Shape) (a : ℕ) (c : Around) (n m : ℕ)
    → n ≢ 0
    → outside (right_of l a c) n ≡ 0
    → s.left n ≡ 0
    → s.right n ≡ 0
    → Focus s (right_of l a c) leaf 0 a
    → HintsTo s m
    → depth (right_of l a c) + 1 < fuel
    → m + depth (right_of l a c) + 1 < 2 ^ 15
    → Settled fuel s n a right_dir (fill (right_of l a c) (n ∷ [])) (m + depth (right_of l a c) + 1)
unfolding put_new insert_at
put_right fuel s l a c n m nz o ln rn f h enough small =
    let u =
      st_update-IsTree fuel (attach s a n right_dir) (right_of l a c) leaf leaf n a m
        (attach-right s l a c n nz o ln rn f) (attach-HintsTo s a n right_dir m h) enough small in
    record {
      after = u.after;
      run = ground (arith, u.run, Above-root_nonzero s (right_of l a c) 0 a f.above f.above.1);
      tree = u.tree;
      hints = u.hints;
    }

Settled-of_le :
    (fuel : ℕ) (s : Tree) (n p q : ℕ) (d e : Dir) (xs : List ℕ) (m k : ℕ)
    → p ≡ q
    → d ≡ e
    → m ≤ k
    → Settled fuel s n q e xs m
    → Settled fuel s n p d xs k
Settled-of_le fuel s n p q d e xs m k ep ed le u =
    subst (λ z. Settled fuel s n z d xs k) (sym ep)
      (subst (λ z. Settled fuel s n q z xs k) (sym ed)
        (record {
          after = u.after;
          run = u.run;
          tree = u.tree;
          hints = HintsTo-mono u.after m k le u.hints;
        }))

pub put_new-IsTree :
    (fuel : ℕ) (s : Tree) (c : Around) (p : ℕ) (d : Dir) (n m k : ℕ)
    → At d c
    → Focus s c leaf 0 p
    → n ≢ 0
    → outside c n ≡ 0
    → s.parent n ≡ 0
    → s.left n ≡ 0
    → s.right n ≡ 0
    → HintsTo s m
    → depth c ≤ k
    → k + 1 < fuel
    → m + k + 1 < 2 ^ 15
    → Settled fuel s n p d (fill c (n ∷ [])) (m + k + 1)
put_new-IsTree fuel s top p d n m k u f nz o pn ln rn h le enough small =
    Settled-of_le fuel s n p p d none_dir (n ∷ []) m (m + k + 1) refl u (omega arith)
      (put_top fuel s n p m nz f.above.1 pn ln rn h)
put_new-IsTree fuel s (left_of c a r) p d n m k u f nz o pn ln rn h le enough small =
    Settled-of_le fuel s n p a d left_dir (fill (left_of c a r) (n ∷ []))
      (m + depth (left_of c a r) + 1) (m + k + 1) f.above.0 u (omega arith)
      (put_left fuel s c a r n m nz o ln rn
        (subst (λ z. Focus s (left_of c a r) leaf 0 z) f.above.0 f) h (omega arith) (omega arith))
put_new-IsTree fuel s (right_of l a c) p d n m k u f nz o pn ln rn h le enough small =
    Settled-of_le fuel s n p a d right_dir (fill (right_of l a c) (n ∷ []))
      (m + depth (right_of l a c) + 1) (m + k + 1) f.above.0 u (omega arith)
      (put_right fuel s l a c n m nz o ln rn
        (subst (λ z. Focus s (right_of l a c) leaf 0 z) f.above.0 f) h (omega arith) (omega arith))
