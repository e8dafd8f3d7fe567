-- ===== src/STree/Remove/MovedLeft.antt =====
-- The tree after `st_replace_left`, from what it has written.
use linux_summer.Prelude.{
  ℕ, ◌+◌, ◌<◌, ◌≡◌, ◌≢◌, refl, sym, subst, ◌⊎◌, inl, inr, ◌==◌, one_if, if◌then◌else◌, arith,
}
use linux_summer.STree.{Tree}
use linux_summer.STree.Shape.{Shape, node, Around, Below, within, outside, Focus}
use linux_summer.STree.Frame.{Same, Below-adopted, Above-Replaced}
use linux_summer.STree.Place.{parent_outside, link_within, Replaced-moved, avoids}

-- What both cases leave: `r` has the place of `n`, `l` is its right child, and `y` its left one.
pub record Moved (s s' : Tree) (n r l y p : ℕ) : Type 0 where
  pub root : s'.root ≡ (if n == s.root then r else s.root)
  pub above : p ≢ 0 → s'.parent p ≡ s.parent p
  pub as_left : p ≢ 0 → s.left p ≡ n → (s'.left p ≡ r) × (s'.right p ≡ s.right p)
  pub as_right : p ≢ 0 → s.left p ≢ n → (s'.right p ≡ r) × (s'.left p ≡ s.left p)
  pub new : (s'.parent r ≡ p) × (s'.right r ≡ l) × (s'.left r ≡ y)
  pub child : l ≢ 0 → s'.parent l ≡ r

pub Moved-Focus :
    (s s' : Tree) (c : Around) (L R R' : Shape) (n r y p : ℕ)
    → Focus s c (node R n L) n p
    → Moved s s' n r (s.right n) y p
    → r ≢ 0
    → ((k : ℕ) → within R k ≡ one_if (r == k) + within R' k)
    → ((k : ℕ)
        → (0 < outside c k) ⊎ (0 < within L k)
        → (p ≡ 0) ⊎ (k ≢ p)
        → (s.right n ≡ 0) ⊎ (k ≢ s.right n)
        → Same s s' k)
    → (s.right n ≢ 0
        → (s'.right (s.right n) ≡ s.right (s.right n)) × (s'.left (s.right n) ≡ s.left (s.right n)))
    → Below s' r R' y
    → Focus s' c (node R' r L) r p
Moved-Focus s s' c L R R' n r y p f k rnz count same kids below =
    let (n_e, n_nz, n_p, bR, bL) = f.below in
    let d = f.distinct in
    let pb = parent_outside s c n p f.above in
    let lb = link_within s n L (s.right n) bL in
    record {
      above =
          Above-Replaced s s' c n r p
            (λ z o zp.
              same z (inl o) (inr zp) (avoids (within L) (s.right n) z lb (omega (arith, d z))))
            (λ z. omega (arith, d z))
            (Replaced-moved s s' c n r p f.above n_nz (ground (arith, d n)) k.root k.above k.as_left
              k.as_right)
            f.above;
      below = (
        refl,
        rnz,
        k.new.0,
        subst (λ z. Below s' r R' z) (sym k.new.2) below,
        subst (λ z. Below s' r L z) (sym k.new.1)
            (Below-adopted s s' n r L (s.right n)
              (λ z i zl. same z (inr i) (avoids (outside c) p z pb (omega (arith, d z))) (inr zl))
              (λ z. omega (arith, d z)) (λ nz. (k.child nz, (kids nz).1, (kids nz).0)) bL),
      );
      distinct = λ z. ground (arith, d z, count z, d r, count r);
    }
