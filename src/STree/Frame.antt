-- ===== src/STree/Frame.antt =====
-- A change of the heap leaves alone the parts of a tree whose nodes it does not write.
use linux_summer.Prelude.{ℕ, ◌≤◌, ◌<◌, ◌≡◌, ◌≢◌, refl, sym, subst, ◌∙◌, arith, ◌⊎◌, inl, inr}
use linux_summer.STree.{Tree}
use linux_summer.STree.Shape.{
  Shape, leaf, node, Around, top, left_of, right_of, Below, Above, within, outside,
}

-- the links of a node are the same
pub record Same (s s' : Tree) (a : ℕ) : Type 0 where
  pub parent : s'.parent a ≡ s.parent a
  pub left : s'.left a ≡ s.left a
  pub right : s'.right a ≡ s.right a

pub within_self : (l r : Shape) (a : ℕ) → 0 < within (node l a r) a
within_self l r a = ground arith

pub Below-Same :
    (s s' : Tree) (p : ℕ) (t : Shape) (x : ℕ)
    → ((a : ℕ) → 0 < within t a → Same s s' a)
    → Below s p t x
    → Below s' p t x
Below-Same s s' p leaf x h b = b
Below-Same s s' p (node l a r) x h (e, nz, pe, bl, br) =
    let same = h a (within_self l r a) in
    let on_left = Below-Same s s' a l (s.left a) (λ b hb. h b (omega arith)) bl in
    let on_right = Below-Same s s' a r (s.right a) (λ b hb. h b (omega arith)) br in
    (
      e,
      nz,
      same.parent ∙ pe,
      subst (λ z. Below s' a l z) (sym same.left) on_left,
      subst (λ z. Below s' a r z) (sym same.right) on_right,
    )

-- Only the parent of the subtree's root is another one.
pub Below-adopted :
    (s s' : Tree) (p q : ℕ) (t : Shape) (x : ℕ)
    → ((a : ℕ) → 0 < within t a → a ≢ x → Same s s' a)
    → ((a : ℕ) → within t a ≤ 1)
    → (x ≢ 0 → (s'.parent x ≡ q) × (s'.left x ≡ s.left x) × (s'.right x ≡ s.right x))
    → Below s p t x
    → Below s' q t x
Below-adopted s s' p q leaf x h d k b = b
Below-adopted s s' p q (node l a r) x h d k (e, nz, pe, bl, br) =
    let (kp, kl, kr) = k' in
    let on_left =
      Below-Same s s' a l (s.left a) (λ b hb. h b (omega arith) (other b (inl hb))) bl in
    let on_right =
      Below-Same s s' a r (s.right a) (λ b hb. h b (omega arith) (other b (inr hb))) br in
    (
      e,
      nz,
      kp,
      subst (λ z. Below s' a l z) (sym kl) on_left,
      subst (λ z. Below s' a r z) (sym kr) on_right,
    )
  where
    other : (b : ℕ) → (0 < within l b) ⊎ (0 < within r b) → b ≢ x
    other b hb = ground (arith, d b, hb, e)

    k' : (s'.parent a ≡ q) × (s'.left a ≡ s.left a) × (s'.right a ≡ s.right a)
    k' =
        subst (λ z. (s'.parent z ≡ q) × (s'.left z ≡ s.left z) × (s'.right z ≡ s.right z)) e
          (k (λ z. nz (sym e ∙ z)))

pub Above-Same :
    (s s' : Tree) (c : Around) (x p : ℕ)
    → ((a : ℕ) → 0 < outside c a → Same s s' a)
    → s'.root ≡ s.root
    → Above s c x p
    → Above s' c x p
Above-Same s s' top x p h e (z, k) = (z, e ∙ k)
Above-Same s s' (left_of c a r) x p h e (pe, nz, k, b, u) =
    let same = h a (ground arith) in
    let on_right = Below-Same s s' a r (s.right a) (λ b hb. h b (omega arith)) b in
    let above = Above-Same s s' c a (s.parent a) (λ b hb. h b (omega arith)) e u in
    (
      pe,
      nz,
      same.left ∙ k,
      subst (λ z. Below s' a r z) (sym same.right) on_right,
      subst (λ z. Above s' c a z) (sym same.parent) above,
    )
Above-Same s s' (right_of l a c) x p h e (pe, nz, k, b, u) =
    let same = h a (ground arith) in
    let on_left = Below-Same s s' a l (s.left a) (λ b hb. h b (omega arith)) b in
    let above = Above-Same s s' c a (s.parent a) (λ b hb. h b (omega arith)) e u in
    (
      pe,
      nz,
      same.right ∙ k,
      subst (λ z. Below s' a l z) (sym same.left) on_left,
      subst (λ z. Above s' c a z) (sym same.parent) above,
    )

-- Another node, `y`, takes the place of the subtree's root `x` below the same parent `p`.
pub record Replaced (s s' : Tree) (x y p : ℕ) : Type 0 where
  pub at_root : p ≡ 0 → s'.root ≡ y
  pub root : p ≢ 0 → s'.root ≡ s.root
  pub parent : p ≢ 0 → s'.parent p ≡ s.parent p
  pub as_left : p ≢ 0 → s.left p ≡ x → (s'.left p ≡ y) × (s'.right p ≡ s.right p)
  pub as_right : p ≢ 0 → s.right p ≡ x → (s'.right p ≡ y) × (s'.left p ≡ s.left p)

pub Above-Replaced :
    (s s' : Tree) (c : Around) (x y p : ℕ)
    → ((a : ℕ) → 0 < outside c a → a ≢ p → Same s s' a)
    → ((a : ℕ) → outside c a ≤ 1)
    → Replaced s s' x y p
    → Above s c x p
    → Above s' c y p
Above-Replaced s s' top x y p h d k (z, e) = (z, k.at_root z)
Above-Replaced s s' (left_of c a r) x y p h d k (pe, nz, e, b, u) =
    subst (λ z. Above s' (left_of c a r) y z) (sym pe)
      (
        refl,
        nz,
        (k'.as_left nz e).0,
        subst (λ z. Below s' a r z) (sym (k'.as_left nz e).1)
            (Below-Same s s' a r (s.right a) (λ b hb. h' b (omega arith) (ground (arith, d b, hb)))
              b),
        subst (λ z. Above s' c a z) (sym (k'.parent nz))
            (Above-Same s s' c a (s.parent a) (λ b hb. h' b (omega arith) (ground (arith, d b, hb)))
              (k'.root nz) u),
      )
  where
    k' : Replaced s s' x y a
    k' = subst (λ z. Replaced s s' x y z) pe k

    h' : (b : ℕ) → 0 < outside (left_of c a r) b → b ≢ a → Same s s' b
    h' b hb ne = h b hb (λ q. ne (q ∙ pe))
Above-Replaced s s' (right_of l a c) x y p h d k (pe, nz, e, b, u) =
    subst (λ z. Above s' (right_of l a c) y z) (sym pe)
      (
        refl,
        nz,
        (k'.as_right nz e).0,
        subst (λ z. Below s' a l z) (sym (k'.as_right nz e).1)
            (Below-Same s s' a l (s.left a) (λ b hb. h' b (omega arith) (ground (arith, d b, hb)))
              b),
        subst (λ z. Above s' c a z) (sym (k'.parent nz))
            (Above-Same s s' c a (s.parent a) (λ b hb. h' b (omega arith) (ground (arith, d b, hb)))
              (k'.root nz) u),
      )
  where
    k' : Replaced s s' x y a
    k' = subst (λ z. Replaced s s' x y z) pe k

    h' : (b : ℕ) → 0 < outside (right_of l a c) b → b ≢ a → Same s s' b
    h' b hb ne = h b hb (λ q. ne (q ∙ pe))
