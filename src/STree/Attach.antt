-- ===== src/STree/Attach.antt =====
-- A new node below the parent that `__st_find` names.
use linux_summer.Prelude.{
  ℕ, ◌+◌, ◌≤◌, ◌≡◌, ◌≢◌, refl, sym, ap, subst, ◌∙◌, arith, ℕ_discrete, List, ◌∷◌, ◌++◌, length,
  length-append, count, count-append,
}
use linux_summer.Prelude.Int.{pos}
use linux_summer.STree.{Tree, left_dir, right_dir, attach}
use linux_summer.STree.Shape.{
  Shape, leaf, node, Around, top, left_of, right_of, Above, Focus, inorder, fill, within, outside,
  depth,
}
use linux_summer.STree.Frame.{Same, Below-Same, Above-Same}
use linux_summer.STree.Place.{Above-root}

-- What the callback `create_node` does from `s` to `s'`: `n` is a new node, and it is zeroed.
pub record Creates (s s' : Tree) (n : ℕ) (xs : List ℕ) : Type 0 where
  pub nonzero : n ≢ 0
  pub unused : count n xs ≡ 0
  pub zeroed : (s'.parent n ≡ 0) × (s'.left n ≡ 0) × (s'.right n ≡ 0) × (s'.hint n ≡ pos 0)
  pub same : (a : ℕ) → a ≢ n → Same s s' a
  pub hint : (a : ℕ) → a ≢ n → s'.hint a ≡ s.hint a
  pub root : s'.root ≡ s.root

pub count-inorder : (t : Shape) (a : ℕ) → count a (inorder t) ≡ within t a
count-inorder leaf a = refl
count-inorder (node l b r) a =
    omega (arith, count-append a (inorder l) (b ∷ inorder r), count-inorder l a, count-inorder r a)

pub count-fill : (c : Around) (xs : List ℕ) (a : ℕ) → count a (fill c xs) ≡ outside c a + count a xs
count-fill top xs a = omega arith
count-fill (left_of c b r) xs a = omega (
  arith,
  count-fill c (xs ++ (b ∷ inorder r)) a,
  count-append a xs (b ∷ inorder r),
  count-inorder r a,
)
count-fill (right_of l b c) xs a = omega (
  arith,
  count-fill c (inorder l ++ (b ∷ xs)) a,
  count-append a (inorder l) (b ∷ xs),
  count-inorder l a,
)

pub depth-fill : (c : Around) (xs : List ℕ) → depth c + length xs ≤ length (fill c xs)
depth-fill top xs = omega arith
depth-fill (left_of c a r) xs =
    omega (arith, depth-fill c (xs ++ (a ∷ inorder r)), length-append xs (a ∷ inorder r))
depth-fill (right_of l a c) xs =
    omega (arith, depth-fill c (inorder l ++ (a ∷ xs)), length-append (inorder l) (a ∷ xs))

pub Above-root_nonzero : (s : Tree) (c : Around) (x p : ℕ) → Above s c x p → p ≢ 0 → s.root ≢ 0
Above-root_nonzero s top x p (z, e) nz = absurd (nz z)
Above-root_nonzero s (left_of c a r) x p (pe, nz, e, b, u) q = elim (ℕ_discrete (s.parent a) 0) [
  | yes z ↦ λ w. nz (sym (Above-root s c a (s.parent a) u z) ∙ w)
  | no ne ↦ Above-root_nonzero s c a (s.parent a) u ne
]
Above-root_nonzero s (right_of l a c) x p (pe, nz, e, b, u) q = elim (ℕ_discrete (s.parent a) 0) [
  | yes z ↦ λ w. nz (sym (Above-root s c a (s.parent a) u z) ∙ w)
  | no ne ↦ Above-root_nonzero s c a (s.parent a) u ne
]

-- Heaps that differ only at `n`, which does not stand in the context.
pub Focus-created :
    (s s' : Tree) (c : Around) (x p n : ℕ)
    → ((a : ℕ) → a ≢ n → Same s s' a)
    → s'.root ≡ s.root
    → outside c n ≡ 0
    → Focus s c leaf x p
    → Focus s' c leaf x p
Focus-created s s' c x p n h e o f = record {
  above = Above-Same s s' c x p (λ a oa. h a (ground (arith, ap (outside c)))) e f.above;
  below = f.below;
  distinct = f.distinct;
}

pub attach-left :
    (s : Tree) (c : Around) (a : ℕ) (r : Shape) (n : ℕ)
    → n ≢ 0
    → outside (left_of c a r) n ≡ 0
    → s.left n ≡ 0
    → s.right n ≡ 0
    → Focus s (left_of c a r) leaf 0 a
    → Focus (attach s a n left_dir) (left_of c a r) (node leaf n leaf) n a
unfolding attach
attach-left s c a r n nz o ln rn f =
    let (pe, a_nz, e, b, u) = f.above in
    let s' = attach s a n left_dir in
    let d = f.distinct in
    let na : a ≢ n = ground (arith, ap (outside (left_of c a r))) in
    let same : (z : ℕ) → z ≢ a → z ≢ n → Same s s' z =
      λ z za zn. record { parent = ground arith; left = ground arith; right = ground arith } in
    let beside =
      Below-Same s s' a r (s.right a)
        (λ z h. same z (ground (arith, d z)) (ground (arith, o, ap (within r)))) b in
    let over =
      Above-Same s s' c a (s.parent a)
        (λ z h. same z (ground (arith, d z)) (ground (arith, o, ap (outside c)))) refl u in
    record {
      above =
          (refl, a_nz, ground arith, beside, subst (λ q. Above s' c a q) (ground (arith, na)) over);
      below = (refl, nz, ground arith, ground (arith, na), ground (arith, na));
      distinct = λ z. ground (arith, d z, o);
    }

pub attach-right :
    (s : Tree) (r : Shape) (a : ℕ) (c : Around) (n : ℕ)
    → n ≢ 0
    → outside (right_of r a c) n ≡ 0
    → s.left n ≡ 0
    → s.right n ≡ 0
    → Focus s (right_of r a c) leaf 0 a
    → Focus (attach s a n right_dir) (right_of r a c) (node leaf n leaf) n a
unfolding attach
attach-right s r a c n nz o ln rn f =
    let (pe, a_nz, e, b, u) = f.above in
    let s' = attach s a n right_dir in
    let d = f.distinct in
    let na : a ≢ n = ground (arith, ap (outside (right_of r a c))) in
    let same : (z : ℕ) → z ≢ a → z ≢ n → Same s s' z =
      λ z za zn. record { parent = ground arith; left = ground arith; right = ground arith } in
    let beside =
      Below-Same s s' a r (s.left a)
        (λ z h. same z (ground (arith, d z)) (ground (arith, o, ap (within r)))) b in
    let over =
      Above-Same s s' c a (s.parent a)
        (λ z h. same z (ground (arith, d z)) (ground (arith, o, ap (outside c)))) refl u in
    record {
      above =
          (refl, a_nz, ground arith, beside, subst (λ q. Above s' c a q) (ground (arith, na)) over);
      below = (refl, nz, ground arith, ground (arith, na), ground (arith, na));
      distinct = λ z. ground (arith, d z, o);
    }
