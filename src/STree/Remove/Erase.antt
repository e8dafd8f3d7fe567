-- ===== src/STree/Remove/Erase.antt =====
-- The nodes of a tree without one of them, and where that node stands in the tree.
use linux_summer.Prelude.{
  ℕ, ◌<◌, ◌≤◌, ◌≡◌, refl, sym, ap, subst, ◌∙◌, ◌==◌, ◌+◌, if◌then◌else◌, List, [], ◌∷◌, ◌++◌, count,
  count-append, arith, ℕ_discrete,
}
use mathlib.Core.List.{append_assoc}
use linux_summer.STree.{Tree}
use linux_summer.STree.Shape.{
  depth, tall, tall-node, Shape, leaf, node, Around, top, left_of, right_of, Focus, within, outside,
  inorder, fill,
}
use linux_summer.STree.Attach.{count-inorder}
use linux_summer.STree.Find.{down_left, down_right}

-- the list without its first `n`
unfoldable pub erase : ℕ → List ℕ → List ℕ
erase n [] = []
erase n (a ∷ xs) = let rest = erase n xs in if a == n then xs else (a ∷ rest)

pub erase-at : (n : ℕ) (xs ys : List ℕ) → count n xs ≡ 0 → erase n (xs ++ (n ∷ ys)) ≡ xs ++ ys
unfolding erase
erase-at n [] ys e = ground arith
erase-at n (x ∷ xs) ys e = ground (arith, erase-at n xs ys)

pub erase-fill :
    (n : ℕ) (c : Around) (xs ys : List ℕ)
    → outside c n ≡ 0
    → count n xs ≡ 0
    → erase n (fill c (xs ++ (n ∷ ys))) ≡ fill c (xs ++ ys)
erase-fill n top xs ys o e = erase-at n xs ys e
erase-fill n (left_of c a r) xs ys o e =
    let zs = a ∷ inorder r in
    ap (λ z. erase n (fill c z)) (append_assoc xs (n ∷ ys) zs)
    ∙ erase-fill n c xs (ys ++ zs) (omega arith) e
    ∙ ap (fill c) (sym (append_assoc xs ys zs))
erase-fill n (right_of l a c) xs ys o e =
    let zs = inorder l in
    ap (λ z. erase n (fill c z)) (sym (append_assoc zs (a ∷ xs) (n ∷ ys)))
    ∙ erase-fill n c (zs ++ (a ∷ xs)) ys (omega arith)
        (ground (arith, count-append n zs (a ∷ xs), count-inorder l n))
    ∙ ap (fill c) (append_assoc zs (a ∷ xs) ys)

-- the subtree of a node, in its place
pub record Stands (s : Tree) (n : ℕ) (xs : List ℕ) (h : ℕ) : Type 0 where
  pub around : Around
  pub l : Shape
  pub r : Shape
  pub parent : ℕ
  pub at : Focus s around (node l n r) n parent
  pub order : fill around (inorder (node l n r)) ≡ xs
  pub deep : depth around + tall (node l n r) ≤ h

pub within-Stands :
    (s : Tree) (n : ℕ) (c : Around) (t : Shape) (x p h : ℕ)
    → depth c + tall t ≤ h
    → Focus s c t x p
    → 0 < within t n
    → Stands s n (fill c (inorder t)) h
within-Stands s n c leaf x p h low f i = absurd (omega (arith, i))
within-Stands s n c (node l a r) x p h low f i = elim (ℕ_discrete a n) [
  | yes e ↦
      subst (λ z. Stands s z (fill c (inorder (node l a r))) h) e
        (record {
          around = c;
          l = l;
          r = r;
          parent = p;
          at = subst (λ z. Focus s c (node l a r) z p) f.below.0 f;
          order = refl;
          deep = low;
        })
  | no ne ↦ (elim (ℕ_discrete (within l n) 0) [
    | yes z ↦
        within-Stands s n (right_of l a c) r (s.right a) a h (omega (arith, low, tall-node l a r))
          (down_right s c l r a p f') (ground (arith, i))
    | no nz ↦
        within-Stands s n (left_of c a r) l (s.left a) a h (omega (arith, low, tall-node l a r))
          (down_left s c l r a p f') (omega arith)
  ])
]
  where
    f' : Focus s c (node l a r) a p
    f' = subst (λ z. Focus s c (node l a r) z p) f.below.0 f
