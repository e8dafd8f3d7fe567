-- ===== src/STree/Remove/NearLeft.antt =====
-- `st_replace_left` where the left child itself takes the place.
use linux_summer.Prelude.{ℕ, ◌≡◌, ◌≢◌, refl, sym, ap, subst, ◌∙◌, ◌⊎◌, arith}
use linux_summer.STree.{Tree, move_root}
use linux_summer.STree.Shape.{Shape, leaf, node, Around, within, outside, Focus}
use linux_summer.STree.Frame.{Same, Below-Same}
use linux_summer.STree.Place.{parent_outside, link_within, avoids}
use linux_summer.STree.Remove.{
  hand_over, link_left, settle_left, splice_left, st_replace_left, take_left,
}
use linux_summer.STree.Remove.Fields.{
  link_left-Linked, move_root_root, move_root_parent, move_root_links,
}
use linux_summer.STree.Remove.MovedLeft.{Moved, Moved-Focus}

splice_left_off : (s : Tree) (rp r : ℕ) → s.right rp ≢ r → splice_left s rp r ≡ s
unfolding splice_left
splice_left_off s rp r ne = ground arith

hand_over_off : (s : Tree) (rp n r : ℕ) → s.parent rp ≢ n → hand_over s rp n r ≡ s
unfolding hand_over
hand_over_off s rp n r ne = ground arith

take_left_off :
    (s : Tree) (n r p : ℕ)
    → s.left n ≡ r
    → take_left (settle_left s n r p) n r ≡ settle_left s n r p
unfolding take_left settle_left
take_left_off s n r p e = ground arith

near_left :
    (s : Tree) (n r : ℕ)
    → s.left n ≡ r
    → s.parent r ≡ n
    → s.right n ≢ r
    → s.parent n ≢ n
    → n ≢ r
    → st_replace_left s n r ≡ link_left (settle_left s n r (s.parent n)) (s.parent n) n r
unfolding st_replace_left
near_left s n r er pr lr pn nr =
    let p = s.parent n in
    let rp = s.parent r in
    ap (λ t. link_left (take_left (settle_left (hand_over t rp n r) n r p) n r) p n r)
      (splice_left_off s rp r (λ e. lr (ap s.right (sym pr) ∙ e)))
    ∙ ap (λ t. link_left (take_left (settle_left t n r p) n r) p n r)
        (hand_over_off s rp n r (λ e. pn (ap s.parent (sym pr) ∙ e)))
    ∙ ap (λ t. link_left t p n r) (take_left_off s n r p er)

-- The left child itself: only `r` is written before.
record Seated (s t : Tree) (r c p : ℕ) : Type 0 where
  pub root : t.root ≡ s.root
  pub parents : (a : ℕ) → a ≢ r → t.parent a ≡ s.parent a
  pub rights : (a : ℕ) → a ≢ r → t.right a ≡ s.right a
  pub lefts : (a : ℕ) → t.left a ≡ s.left a
  pub new : (t.parent r ≡ p) × (t.right r ≡ c)

settle_left-Seated : (s : Tree) (n r p : ℕ) → Seated s (settle_left s n r p) r (s.right n) p
unfolding settle_left
settle_left-Seated s n r p = record {
  root = refl;
  parents = λ a ne. ground arith;
  rights = λ a ne. ground arith;
  lefts = λ a. refl;
  new = (ground arith, ground arith);
}

pub near_at :
    (s : Tree) (c : Around) (L : Shape) (r : ℕ) (X : Shape) (n p : ℕ)
    → Focus s c (node (node X r leaf) n L) n p
    → Focus (st_replace_left (move_root s n r) n r) c (node X r L) r p
near_at s c L r X n p f =
    let (n_e, n_nz, n_p, (r_e, r_nz, r_p, bX, r_l), bL) = f.below in
    let d = f.distinct in
    let pb = parent_outside s c n p f.above in
    let lb = link_within s n L (s.right n) bL in
    let s₀ = move_root s n r in
    let m : (k : ℕ) → s₀.parent k ≡ s.parent k = move_root_parent s n r in
    let m' : (k : ℕ) → (s₀.left k ≡ s.left k) × (s₀.right k ≡ s.right k) = move_root_links s n r in
    let t = settle_left s₀ n r p in
    let s' = link_left t p n r in
    let k = settle_left-Seated s₀ n r p in
    let n_r : n ≢ r = ground (arith, d n) in
    let n_l : s.right n ≢ r = ground (arith, d r, lb, r_nz) in
    let p_n : p ≢ n = ground (arith, d n, pb, n_nz) in
    let w = link_left-Linked t n r (s.right n) p (k.rights n n_r ∙ (m' n).1) p_n in
    let off_p : (z : ℕ) → outside c z ≡ 0 → (p ≡ 0) ⊎ (z ≢ p) = λ z. avoids (outside c) p z pb in
    let off_l : (z : ℕ) → within L z ≡ 0 → (s.right n ≡ 0) ⊎ (z ≢ s.right n) =
      λ z. avoids (within L) (s.right n) z lb in
    let p_r : p ≢ 0 → p ≢ r = λ nz. ground (arith, d p, pb, nz) in
    let p_l : p ≢ 0 → within L p ≡ 0 = λ nz. ground (arith, d p, pb, nz) in
    let moved : Moved s s' n r (s.right n) (s.left r) p = record {
      root = w.root ∙ k.root ∙ move_root_root s n r;
      above = λ nz. w.parents p (off_l p (p_l nz)) ∙ k.parents p (p_r nz) ∙ m p;
      as_left = λ nz e.
          let g = w.as_left nz (k.lefts p ∙ (m' p).0 ∙ e) in
          (g.0, g.1 ∙ k.rights p (p_r nz) ∙ (m' p).1);
      as_right = λ nz e.
          let same = k.lefts p ∙ (m' p).0 in
          let g = w.as_right nz (λ x. e (sym same ∙ x)) in (g.0, g.1 ∙ same);
      new = (
        w.parents r (off_l r (ground (arith, d r))) ∙ k.new.0,
        (w.links r (off_p r (ground (arith, d r)))).1 ∙ k.new.1 ∙ (m' n).1,
        (w.links r (off_p r (ground (arith, d r)))).0 ∙ k.lefts r ∙ (m' r).0,
      );
      child = w.child;
    } in
    let kept : (z : ℕ)
        → z ≢ r
        → (p ≡ 0) ⊎ (z ≢ p)
        → (s.right n ≡ 0) ⊎ (z ≢ s.right n)
        → Same s s' z =
      λ z o zp zl. record {
        parent = w.parents z zl ∙ k.parents z o ∙ m z;
        right = (w.links z zp).1 ∙ k.rights z o ∙ (m' z).1;
        left = (w.links z zp).0 ∙ k.lefts z ∙ (m' z).0;
      } in
    let l_out : s.right n ≢ 0 → (s.right n ≢ r) × (outside c (s.right n) ≡ 0) =
      λ nz. (n_l, ground (arith, d (s.right n), lb, nz)) in
    let step =
      near_left s₀ n r ((m' n).0 ∙ r_e) (m r ∙ r_p) (λ e. n_l (sym (m' n).1 ∙ e))
        (λ e. p_n (sym (m n ∙ n_p) ∙ e)) n_r in
    subst (λ z. Focus z c (node X r L) r p)
      (sym (step ∙ ap (λ z. link_left (settle_left s₀ n r z) z n r) (m n ∙ n_p)))
      (Moved-Focus s s' c L (node X r leaf) X n r (s.left r) p f moved r_nz (λ z. omega arith)
        (λ z o zp zl. kept z (ground (arith, d z, o)) zp zl)
        (λ nz. (
          (w.links (s.right n) (off_p (s.right n) (l_out nz).1)).1
              ∙ k.rights (s.right n) n_l
              ∙ (m' (s.right n)).1,
          (w.links (s.right n) (off_p (s.right n) (l_out nz).1)).0
              ∙ k.lefts (s.right n)
              ∙ (m' (s.right n)).0,
        ))
        (Below-Same s s' r X (s.left r)
          (λ z i.
            kept z (ground (arith, d z, i)) (off_p z (omega (arith, d z, i)))
              (off_l z (omega (arith, d z, i))))
          bX))
