-- ===== src/STree/Climb.antt =====
-- From a subtree to its parent's, and to the whole tree.
use linux_summer.Prelude.{ℕ, ◌≡◌, refl, sym, subst, arith, ◌∷◌}
use mathlib.Core.List.{append_assoc}
use linux_summer.STree.{Tree}
use linux_summer.STree.Shape.{
  Shape, node, Around, top, left_of, right_of, Below, Focus, IsTree, inorder, fill,
}
use linux_summer.STree.Frame.{Same, Below-Same, Above-Same}

pub Focus-Same :
    (s s' : Tree) (c : Around) (t : Shape) (x p : ℕ)
    → ((a : ℕ) → Same s s' a)
    → s'.root ≡ s.root
    → Focus s c t x p
    → Focus s' c t x p
Focus-Same s s' c t x p h e f = record {
  above = Above-Same s s' c x p (λ a o. h a) e f.above;
  below = Below-Same s s' p t x (λ a o. h a) f.below;
  distinct = f.distinct;
}

pub up_left :
    (s : Tree) (c : Around) (a : ℕ) (r t : Shape) (x p : ℕ)
    → Focus s (left_of c a r) t x p
    → Focus s c (node t a r) a (s.parent a)
up_left s c a r t x p f =
    let (pe, nz, e, b, u) = f.above in
    let t_a : Below s a t x = subst (λ z. Below s z t x) pe f.below in
    record {
      above = u;
      below = (refl, nz, refl, subst (λ z. Below s a t z) (sym e) t_a, b);
      distinct = λ z. omega (arith, f.distinct z);
    }

pub up_right :
    (s : Tree) (l : Shape) (a : ℕ) (c : Around) (t : Shape) (x p : ℕ)
    → Focus s (right_of l a c) t x p
    → Focus s c (node l a t) a (s.parent a)
up_right s l a c t x p f =
    let (pe, nz, e, b, u) = f.above in
    let t_a : Below s a t x = subst (λ z. Below s z t x) pe f.below in
    record {
      above = u;
      below = (refl, nz, refl, b, subst (λ z. Below s a t z) (sym e) t_a);
      distinct = λ z. omega (arith, f.distinct z);
    }

pub Focus-whole :
    (s : Tree) (c : Around) (t : Shape) (x p : ℕ) → Focus s c t x p → IsTree s (fill c (inorder t))
Focus-whole s top t x p f =
    let (z, e) = f.above in
    record {
      shape = t;
      links = subst (λ y. Below s 0 t y) (sym e) (subst (λ q. Below s q t x) z f.below);
      distinct = λ a. omega (arith, f.distinct a);
      order = refl;
    }
Focus-whole s (left_of c a r) t x p f =
    Focus-whole s c (node t a r) a (s.parent a) (up_left s c a r t x p f)
Focus-whole s (right_of l a c) t x p f =
    Focus-whole s c (node l a t) a (s.parent a) (up_right s l a c t x p f)

pub rotated_order :
    (A B R : Shape) (l n : ℕ) → inorder (node A l (node B n R)) ≡ inorder (node (node A l B) n R)
rotated_order A B R l n = sym (append_assoc (inorder A) (l ∷ inorder B) (n ∷ inorder R))
