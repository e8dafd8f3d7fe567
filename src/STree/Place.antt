-- ===== src/STree/Place.antt =====
-- Where the root, the parent and the links of a subtree are.
use linux_summer.Prelude.{
  ℕ, ◌<◌, ◌≡◌, ◌≢◌, sym, ap, subst, ◌∙◌, ◌==◌, arith, ◌⊎◌, inl, inr, ℕ_discrete, if◌then◌else◌,
}
use linux_summer.STree.{Tree}
use linux_summer.STree.Shape.{
  Shape, leaf, node, Around, top, left_of, right_of, Below, Above, within, outside,
}
use linux_summer.STree.Frame.{Replaced}

pub Above-root : (s : Tree) (c : Around) (x p : ℕ) → Above s c x p → p ≡ 0 → s.root ≡ x
Above-root s top x p (z, e) q = e
Above-root s (left_of c a r) x p (pe, nz, e, b, u) q = absurd (nz (sym pe ∙ q))
Above-root s (right_of l a c) x p (pe, nz, e, b, u) q = absurd (nz (sym pe ∙ q))

pub root_outside : (s : Tree) (c : Around) (x p : ℕ) → Above s c x p → p ≢ 0 → 0 < outside c s.root
root_outside s top x p (z, e) nz = absurd (nz z)
root_outside s (left_of c a r) x p (pe, nz, e, b, u) q = elim (ℕ_discrete (s.parent a) 0) [
  | yes z ↦ ground (arith, Above-root s c a (s.parent a) u z)
  | no ne ↦ ground (arith, root_outside s c a (s.parent a) u ne)
]
root_outside s (right_of l a c) x p (pe, nz, e, b, u) q = elim (ℕ_discrete (s.parent a) 0) [
  | yes z ↦ ground (arith, Above-root s c a (s.parent a) u z)
  | no ne ↦ ground (arith, root_outside s c a (s.parent a) u ne)
]

pub parent_outside : (s : Tree) (c : Around) (x p : ℕ) → Above s c x p → (p ≡ 0) ⊎ (0 < outside c p)
parent_outside s top x p (z, e) = inl z
parent_outside s (left_of c a r) x p (pe, nz, e, b, u) = inr (ground arith)
parent_outside s (right_of l a c) x p (pe, nz, e, b, u) = inr (ground arith)

pub link_within :
    (s : Tree) (p : ℕ) (t : Shape) (x : ℕ) → Below s p t x → (x ≡ 0) ⊎ (0 < within t x)
link_within s p leaf x e = inl e
link_within s p (node l a r) x (e, nz, pe, bl, br) = inr (ground arith)

-- Only one of the parent's links is the link to the subtree.
pub one_link :
    (s : Tree) (c : Around) (x p : ℕ)
    → Above s c x p
    → x ≢ 0
    → outside c x ≡ 0
    → p ≢ 0
    → s.left p ≡ x
    → s.right p ≢ x
one_link s top x p (z, e) nx o nz el er = nz z
one_link s (left_of c a r) x p (pe, nz, e, b, u) nx o pz el er =
    let er' : s.right a ≡ x = ap s.right (sym pe) ∙ er in
    ground (arith, link_within s a r x (subst (λ z. Below s a r z) er' b))
one_link s (right_of l a c) x p (pe, nz, e, b, u) nx o pz el er =
    let el' : s.left a ≡ x = ap s.left (sym pe) ∙ el in
    ground (arith, link_within s a l x (subst (λ z. Below s a l z) el' b))

-- The new root of the subtree takes the place of the old one, `x`.
pub Replaced-moved :
    (s s' : Tree) (c : Around) (x y p : ℕ)
    → Above s c x p
    → x ≢ 0
    → outside c x ≡ 0
    → s'.root ≡ (if x == s.root then y else s.root)
    → (p ≢ 0 → s'.parent p ≡ s.parent p)
    → (p ≢ 0 → s.left p ≡ x → (s'.left p ≡ y) × (s'.right p ≡ s.right p))
    → (p ≢ 0 → s.left p ≢ x → (s'.right p ≡ y) × (s'.left p ≡ s.left p))
    → Replaced s s' x y p
Replaced-moved s s' c x y p u nx o r k el er = record {
  at_root = λ z. ground (arith, Above-root s c x p u z);
  root = λ nz. ground (arith, root_outside s c x p u nz);
  parent = k;
  as_left = el;
  as_right = λ nz e. er nz (λ e'. one_link s c x p u nx o nz e' e);
}

-- Where `b` occurs if it is not 0, an address that does not occur is another one.
pub avoids : (g : ℕ → ℕ) (b a : ℕ) → (b ≡ 0) ⊎ (0 < g b) → g a ≡ 0 → (b ≡ 0) ⊎ (a ≢ b)
avoids g b a (inl e) h = inl e
avoids g b a (inr o) h = inr (λ e. ground (arith, ap g e))
