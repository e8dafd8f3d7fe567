-- ===== src/STree/Rotate.antt =====
-- A rotation of a subtree gives a tree of the same nodes in the same order.
use linux_summer.Prelude.{ℕ, ◌≡◌, ◌≢◌, refl, sym, subst, arith, ◌⊎◌, inr}
use linux_summer.STree.{Tree}
use linux_summer.STree.Shape.{Shape, node, Around, Below, within, outside, Focus}
use linux_summer.STree.Frame.{Same, Below-Same, Below-adopted, Above-Replaced}
use linux_summer.STree.Fields.{RotatedLeft, RotatedRight}
use linux_summer.STree.Place.{parent_outside, link_within, Replaced-moved, avoids}

pub left-Focus :
    (s s' : Tree) (c : Around) (A B R : Shape) (n l p : ℕ)
    → Focus s c (node (node A l B) n R) n p
    → RotatedLeft s s' n l (s.right l) p
    → Focus s' c (node A l (node B n R)) l p
left-Focus s s' c A B R n l p f k =
    let (n_e, n_nz, n_p, (l_e, l_nz, l_p, bA, bB), bR) = f.below in
    let pb = parent_outside s c n p f.above in
    let bb = link_within s l B (s.right l) bB in
    let d = f.distinct in
    let off_p : (a : ℕ) → outside c a ≡ 0 → (p ≡ 0) ⊎ (a ≢ p) = λ a. avoids (outside c) p a pb in
    let off_b : (a : ℕ) → within B a ≡ 0 → (s.right l ≡ 0) ⊎ (a ≢ s.right l) =
      λ a. avoids (within B) (s.right l) a bb in
    let kept : (a : ℕ) → a ≢ n → a ≢ l → within B a ≡ 0 → outside c a ≡ 0 → Same s s' a =
      λ a an al aB ac. k.same a an al (off_b a aB) (off_p a ac) in
    let on_A =
      Below-Same s s' l A (s.left l)
        (λ a h.
          kept a (ground (arith, d a)) (ground (arith, d a)) (omega (arith, d a))
            (omega (arith, d a)))
        bA in
    let on_R =
      Below-Same s s' n R (s.right n)
        (λ a h.
          kept a (ground (arith, d a)) (ground (arith, d a)) (omega (arith, d a))
            (omega (arith, d a)))
        bR in
    let on_B =
      Below-adopted s s' l n B (s.right l)
        (λ a h ab.
          k.same a (ground (arith, d a)) (ground (arith, d a)) (inr ab)
            (off_p a (omega (arith, d a))))
        (λ a. omega (arith, d a)) k.moved bB in
    record {
      above =
          Above-Replaced s s' c n l p
            (λ a h ap'.
              k.same a (ground (arith, d a)) (ground (arith, d a)) (off_b a (omega (arith, d a)))
                (inr ap'))
            (λ a. omega (arith, d a))
            (Replaced-moved s s' c n l p f.above n_nz (ground (arith, d n)) k.root k.above k.as_left
              k.as_right)
            f.above;
      below = (
        refl,
        l_nz,
        k.upper.0,
        subst (λ z. Below s' l A z) (sym k.upper.1) on_A,
        (
          k.upper.2,
          n_nz,
          k.lower.0,
          subst (λ z. Below s' n B z) (sym k.lower.1) on_B,
          subst (λ z. Below s' n R z) (sym k.lower.2) on_R,
        ),
      );
      distinct = λ a. ground (arith, d a);
    }

pub right-Focus :
    (s s' : Tree) (c : Around) (A B R : Shape) (n r p : ℕ)
    → Focus s c (node A n (node B r R)) n p
    → RotatedRight s s' n r (s.left r) p
    → Focus s' c (node (node A n B) r R) r p
right-Focus s s' c A B R n r p f k =
    let (n_e, n_nz, n_p, bA, (r_e, r_nz, r_p, bB, bR)) = f.below in
    let pb = parent_outside s c n p f.above in
    let bb = link_within s r B (s.left r) bB in
    let d = f.distinct in
    let off_p : (a : ℕ) → outside c a ≡ 0 → (p ≡ 0) ⊎ (a ≢ p) = λ a. avoids (outside c) p a pb in
    let off_b : (a : ℕ) → within B a ≡ 0 → (s.left r ≡ 0) ⊎ (a ≢ s.left r) =
      λ a. avoids (within B) (s.left r) a bb in
    let kept : (a : ℕ) → a ≢ n → a ≢ r → within B a ≡ 0 → outside c a ≡ 0 → Same s s' a =
      λ a an ar aB ac. k.same a an ar (off_b a aB) (off_p a ac) in
    let on_A =
      Below-Same s s' n A (s.left n)
        (λ a h.
          kept a (ground (arith, d a)) (ground (arith, d a)) (omega (arith, d a))
            (omega (arith, d a)))
        bA in
    let on_R =
      Below-Same s s' r R (s.right r)
        (λ a h.
          kept a (ground (arith, d a)) (ground (arith, d a)) (omega (arith, d a))
            (omega (arith, d a)))
        bR in
    let on_B =
      Below-adopted s s' r n B (s.left r)
        (λ a h ab.
          k.same a (ground (arith, d a)) (ground (arith, d a)) (inr ab)
            (off_p a (omega (arith, d a))))
        (λ a. omega (arith, d a)) k.moved bB in
    record {
      above =
          Above-Replaced s s' c n r p
            (λ a h ap'.
              k.same a (ground (arith, d a)) (ground (arith, d a)) (off_b a (omega (arith, d a)))
                (inr ap'))
            (λ a. omega (arith, d a))
            (Replaced-moved s s' c n r p f.above n_nz (ground (arith, d n)) k.root k.above k.as_left
              k.as_right)
            f.above;
      below = (
        refl,
        r_nz,
        k.upper.0,
        (
          k.upper.1,
          n_nz,
          k.lower.0,
          subst (λ z. Below s' n A z) (sym k.lower.1) on_A,
          subst (λ z. Below s' n B z) (sym k.lower.2) on_B,
        ),
        subst (λ z. Below s' r R z) (sym k.upper.2) on_R,
      );
      distinct = λ a. ground (arith, d a);
    }
