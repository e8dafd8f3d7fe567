-- ===== src/STree/Remove/NearRight.antt =====
-- `st_replace_right` where the right child itself takes the place.
use linux_summer.Prelude.{ℕ, ◌≡◌, ◌≢◌, refl, sym, ap, subst, ◌∙◌, ◌⊎◌, arith}
use linux_summer.STree.{Tree, move_root}
use linux_summer.STree.Shape.{Shape, leaf, node, Around, within, outside, Focus}
use linux_summer.STree.Frame.{Same, Below-Same}
use linux_summer.STree.Place.{parent_outside, link_within, avoids}
use linux_summer.STree.Remove.{
  hand_over, link_right, settle_right, splice_right, st_replace_right, take_right,
}
use linux_summer.STree.Remove.Fields.{
  link_right-Linked, move_root_root, move_root_parent, move_root_links,
}
use linux_summer.STree.Remove.MovedRight.{Moved, Moved-Focus}

splice_right_off : (s : Tree) (rp r : ℕ) → s.left rp ≢ r → splice_right s rp r ≡ s
unfolding splice_right
splice_right_off s rp r ne = ground arith

hand_over_off : (s : Tree) (rp n r : ℕ) → s.parent rp ≢ n → hand_over s rp n r ≡ s
unfolding hand_over
hand_over_off s rp n r ne = ground arith

take_right_off :
    (s : Tree) (n r p : ℕ)
    → s.right n ≡ r
    → take_right (settle_right s n r p) n r ≡ settle_right s n r p
unfolding take_right settle_right
take_right_off s n r p e = ground arith

near_right :
    (s : Tree) (n r : ℕ)
    → s.right n ≡ r
    → s.parent r ≡ n
    → s.left n ≢ r
    → s.parent n ≢ n
    → n ≢ r
    → st_replace_right s n r ≡ link_right (settle_right s n r (s.parent n)) (s.parent n) n r
unfolding st_replace_right
near_right s n r er pr lr pn nr =
    let p = s.parent n in
    let rp = s.parent r in
    ap (λ t. link_right (take_right (settle_right (hand_over t rp n r) n r p) n r) p n r)
      (splice_right_off s rp r (λ e. lr (ap s.left (sym pr) ∙ e)))
    ∙ ap (λ t. link_right (take_right (settle_right t n r p) n r) p n r)
        (hand_over_off s rp n r (λ e. pn (ap s.parent (sym pr) ∙ e)))
    ∙ ap (λ t. link_right t p n r) (take_right_off s n r p er)

-- The right child itself: only `r` is written before.
record Seated (s t : Tree) (r c p : ℕ) : Type 0 where
  pub root : t.root ≡ s.root
  pub parents : (a : ℕ) → a ≢ r → t.parent a ≡ s.parent a
  pub lefts : (a : ℕ) → a ≢ r → t.left a ≡ s.left a
  pub rights : (a : ℕ) → t.right a ≡ s.right a
  pub new : (t.parent r ≡ p) × (t.left r ≡ c)

settle_right-Seated : (s : Tree) (n r p : ℕ) → Seated s (settle_right s n r p) r (s.left n) p
unfolding settle_right
settle_right-Seated s n r p = record {
  root = refl;
  parents = λ a ne. ground arith;
  lefts = λ a ne. ground arith;
  rights = λ a. refl;
  new = (ground arith, ground arith);
}

pub near_at :
    (s : Tree) (c : Around) (L : Shape) (r : ℕ) (X : Shape) (n p : ℕ)
    → Focus s c (node L n (node leaf r X)) n p
    → Focus (st_replace_right (move_root s n r) n r) c (node L r X) r p
near_at s c L r X n p f =
    let (n_e, n_nz, n_p, bL, (r_e, r_nz, r_p, r_l, bX)) = f.below in
    let d = f.distinct in
    let pb = parent_outside s c n p f.above in
    let lb = link_within s n L (s.left n) bL in
    let s₀ = move_root s n r in
    let m : (k : ℕ) → s₀.parent k ≡ s.parent k = move_root_parent s n r in
    let m' : (k : ℕ) → (s₀.left k ≡ s.left k) × (s₀.right k ≡ s.right k) = move_root_links s n r in
    let t = settle_right s₀ n r p in
    let s' = link_right t p n r in
    let k = settle_right-Seated s₀ n r p in
    let n_r : n ≢ r = ground (arith, d n) in
    let n_l : s.left n ≢ r = ground (arith, d r, lb, r_nz) in
    let p_n : p ≢ n = ground (arith, d n, pb, n_nz) in
    let w = link_right-Linked t n r (s.left n) p (k.lefts n n_r ∙ (m' n).0) p_n in
    let off_p : (z : ℕ) → outside c z ≡ 0 → (p ≡ 0) ⊎ (z ≢ p) = λ z. avoids (outside c) p z pb in
    let off_l : (z : ℕ) → within L z ≡ 0 → (s.left n ≡ 0) ⊎ (z ≢ s.left n) =
      λ z. avoids (within L) (s.left n) z lb in
    let p_r : p ≢ 0 → p ≢ r = λ nz. ground (arith, d p, pb, nz) in
    let p_l : p ≢ 0 → within L p ≡ 0 = λ nz. ground (arith, d p, pb, nz) in
    let moved : Moved s s' n r (s.left n) (s.right r) p = record {
      root = w.root ∙ k.root ∙ move_root_root s n r;
      above = λ nz. w.parents p (off_l p (p_l nz)) ∙ k.parents p (p_r nz) ∙ m p;
      as_left = λ nz e.
          let g = w.as_left nz (k.lefts p (p_r nz) ∙ (m' p).0 ∙ e) in
          (g.0, g.1 ∙ k.rights p ∙ (m' p).1);
      as_right = λ nz e.
          let same = k.lefts p (p_r nz) ∙ (m' p).0 in
          let g = w.as_right nz (λ x. e (sym same ∙ x)) in (g.0, g.1 ∙ same);
      new = (
        w.parents r (off_l r (ground (arith, d r))) ∙ k.new.0,
        (w.links r (off_p r (ground (arith, d r)))).0 ∙ k.new.1 ∙ (m' n).0,
        (w.links r (off_p r (ground (arith, d r)))).1 ∙ k.rights r ∙ (m' r).1,
      );
      child = w.child;
    } in
    let kept : (z : ℕ) → z ≢ r → (p ≡ 0) ⊎ (z ≢ p) → (s.left n ≡ 0) ⊎ (z ≢ s.left n) → Same s s' z =
      λ z o zp zl. record {
        parent = w.parents z zl ∙ k.parents z o ∙ m z;
        left = (w.links z zp).0 ∙ k.lefts z o ∙ (m' z).0;
        right = (w.links z zp).1 ∙ k.rights z ∙ (m' z).1;
      } in
    let l_out : s.left n ≢ 0 → (s.left n ≢ r) × (outside c (s.left n) ≡ 0) =
      λ nz. (n_l, ground (arith, d (s.left n), lb, nz)) in
    let step =
      near_right s₀ n r ((m' n).1 ∙ r_e) (m r ∙ r_p) (λ e. n_l (sym (m' n).0 ∙ e))
        (λ e. p_n (sym (m n ∙ n_p) ∙ e)) n_r in
    subst (λ z. Focus z c (node L r X) r p)
      (sym (step ∙ ap (λ z. link_right (settle_right s₀ n r z) z n r) (m n ∙ n_p)))
      (Moved-Focus s s' c L (node leaf r X) X n r (s.right r) p f moved r_nz (λ z. omega arith)
        (λ z o zp zl. kept z (ground (arith, d z, o)) zp zl)
        (λ nz. (
          (w.links (s.left n) (off_p (s.left n) (l_out nz).1)).0
              ∙ k.lefts (s.left n) n_l
              ∙ (m' (s.left n)).0,
          (w.links (s.left n) (off_p (s.left n) (l_out nz).1)).1
              ∙ k.rights (s.left n)
              ∙ (m' (s.left n)).1,
        ))
        (Below-Same s s' r X (s.right r)
          (λ z i.
            kept z (ground (arith, d z, i)) (off_p z (omega (arith, d z, i)))
              (off_l z (omega (arith, d z, i))))
          bX))
