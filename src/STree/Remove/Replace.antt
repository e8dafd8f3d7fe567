-- ===== src/STree/Remove/Replace.antt =====
-- `st_replace_right`: the least node on the right takes the place of `n`.
use linux_summer.Prelude.{ℕ, ◌<◌, ◌≡◌, ◌≢◌, refl, sym, ap, subst, ◌∙◌, ◌⊎◌, arith}
use linux_summer.STree.{Tree, move_root}
use linux_summer.STree.Shape.{Shape, leaf, node, Around, within, outside, Focus}
use linux_summer.STree.Frame.{Same}
use linux_summer.STree.Place.{parent_outside, link_within, avoids}
use linux_summer.STree.Remove.{link_right, st_replace_right}
use linux_summer.STree.Remove.Fields.{link_right-Linked, move_root_root, move_root_parent}
use linux_summer.STree.Contract.{within-null}
use linux_summer.STree.Remove.DetachRight.{detach_right, detach_right_root, moved_right-Detached}
use linux_summer.STree.Remove.Spine.{
  least, drop_least, within-least, least-Hangs, Unlinked, drop_least-Below,
}
use linux_summer.STree.Remove.MovedRight.{Moved, Moved-Focus}
use linux_summer.STree.Remove.NearRight.{near_at}

far_right :
    (s : Tree) (c : Around) (L : Shape) (l₂ : Shape) (y₂ : ℕ) (m₂ : Shape) (a : ℕ) (rr : Shape)
    (n p : ℕ)
    → Focus s c (node L n (node (node l₂ y₂ m₂) a rr)) n p
    → Focus
        (st_replace_right (move_root s n (least (node l₂ y₂ m₂))) n (least (node l₂ y₂ m₂)))
        c
        (node L (least (node l₂ y₂ m₂)) (node (drop_least (node l₂ y₂ m₂)) a rr))
        (least (node l₂ y₂ m₂))
        p
unfolding st_replace_right
far_right s c L l₂ y₂ m₂ a rr n p f =
    let (n_e, n_nz, n_p, bL, bR) = f.below in
    let R = node (node l₂ y₂ m₂) a rr in
    let R' = node (drop_least (node l₂ y₂ m₂)) a rr in
    let r = least (node l₂ y₂ m₂) in
    let rp = s.parent r in
    let b = s.right r in
    let q = s.right n in
    let d = f.distinct in
    let pb = parent_outside s c n p f.above in
    let lb = link_within s n L (s.left n) bL in
    let h = least-Hangs s n l₂ y₂ m₂ a rr q bR (λ k. omega (arith, d k)) in
    let q_a : q ≡ a = bR.0 in
    let q_in : 0 < within R q = ground (arith, q_a) in
    let t = detach_right (move_root s n r) n r in
    let s' = link_right t p n r in
    let k =
      moved_right-Detached s n r (s.left n) q b rp p refl refl n_p refl h.left_rp refl
        (λ ne z. ground (arith, d n, h.above ne, z)) (ground (arith, d n, h.r_within))
        (λ z. h.r_x (sym z)) h.rp_r (ground (arith, d n, h.rp_within)) h.b_apart in
    let r_nz : r ≢ 0 = λ z. ground (arith, within-null s n R q bR, ap (within R) z, h.r_within) in
    let t_l : t.left n ≡ s.left n =
      k.lefts n (ground (arith, d n, h.r_within)) (ground (arith, d n, h.rp_within)) in
    let w = link_right-Linked t n r (s.left n) p t_l (ground (arith, d n, pb, n_nz)) in
    let off_p : (z : ℕ) → outside c z ≡ 0 → (p ≡ 0) ⊎ (z ≢ p) = λ z. avoids (outside c) p z pb in
    let off_l : (z : ℕ) → within L z ≡ 0 → (s.left n ≡ 0) ⊎ (z ≢ s.left n) =
      λ z. avoids (within L) (s.left n) z lb in
    let off_b : (z : ℕ) → within R z ≡ 0 → (b ≡ 0) ⊎ (z ≢ b) =
      λ z. avoids (within R) b z h.b_within in
    let apart : (z : ℕ) → within R z ≡ 0 → (z ≢ r) × (z ≢ q) × (z ≢ rp) = λ z o. (
      ground (arith, o, h.r_within, ap (within R)),
      ground (arith, o, q_in, ap (within R)),
      ground (arith, o, h.rp_within, ap (within R)),
    ) in
    let p_out : p ≢ 0 → within R p ≡ 0 = λ nz. ground (arith, d p, pb, nz) in
    let p_l : p ≢ 0 → within L p ≡ 0 = λ nz. ground (arith, d p, pb, nz) in
    let moved : Moved s s' n r (s.left n) q p = record {
      root = w.root ∙ detach_right_root (move_root s n r) n r ∙ move_root_root s n r;
      above = λ nz.
          w.parents p (off_l p (p_l nz))
          ∙ k.parents p (apart p (p_out nz)).0 (apart p (p_out nz)).1 (off_b p (p_out nz));
      as_left = λ nz e.
          let g = w.as_left nz (k.lefts p (apart p (p_out nz)).0 (apart p (p_out nz)).2 ∙ e) in
          (g.0, g.1 ∙ k.rights p (apart p (p_out nz)).0);
      as_right = λ nz e.
          let same = k.lefts p (apart p (p_out nz)).0 (apart p (p_out nz)).2 in
          let g = w.as_right nz (λ x. e (sym same ∙ x)) in (g.0, g.1 ∙ same);
      new = (
        w.parents r (off_l r (ground (arith, d r, h.r_within))) ∙ k.new.0,
        (w.links r (off_p r (ground (arith, d r, h.r_within)))).0 ∙ k.new.1,
        (w.links r (off_p r (ground (arith, d r, h.r_within)))).1 ∙ k.new.2,
      );
      child = w.child;
    } in
    let kept : (z : ℕ)
        → within R z ≡ 0
        → (p ≡ 0) ⊎ (z ≢ p)
        → (s.left n ≡ 0) ⊎ (z ≢ s.left n)
        → Same s s' z =
      λ z o zp zl. record {
        parent = w.parents z zl ∙ k.parents z (apart z o).0 (apart z o).1 (off_b z o);
        left = (w.links z zp).0 ∙ k.lefts z (apart z o).0 (apart z o).2;
        right = (w.links z zp).1 ∙ k.rights z (apart z o).0;
      } in
    let l_out : s.left n ≢ 0 → (within R (s.left n) ≡ 0) × (outside c (s.left n) ≡ 0) =
      λ nz. (ground (arith, d (s.left n), lb, nz), ground (arith, d (s.left n), lb, nz)) in
    let unlinked : Unlinked s s' R q r b rp r = record {
      parents =
          λ z i zr zq zb. w.parents z (off_l z (omega (arith, d z, i))) ∙ k.parents z zr zq zb;
      top = w.parents q (off_l q (omega (arith, d q, q_in))) ∙ k.upper;
      lefts = λ z i zr zrp. (w.links z (off_p z (omega (arith, d z, i)))).0 ∙ k.lefts z zr zrp;
      rights = λ z i zr. (w.links z (off_p z (omega (arith, d z, i)))).1 ∙ k.rights z zr;
      lower = (w.links rp (off_p rp (omega (arith, d rp, h.rp_within)))).0 ∙ k.lower;
      orphan = λ nz. w.parents b (off_l b (ground (arith, d b, h.b_within, nz))) ∙ k.orphan nz;
    } in
    subst (λ z. Focus (link_right t z n r) c (node L r R') r p)
      (sym (move_root_parent s n r n ∙ n_p))
      (Moved-Focus s s' c L R R' n r q p f moved r_nz (within-least (node l₂ y₂ m₂) a rr)
        (λ z o zp zl. kept z (ground (arith, d z, o)) zp zl)
        (λ nz. (
          (w.links (s.left n) (off_p (s.left n) (l_out nz).1)).0
              ∙ k.lefts (s.left n) (apart (s.left n) (l_out nz).0).0
                  (apart (s.left n) (l_out nz).0).2,
          (w.links (s.left n) (off_p (s.left n) (l_out nz).1)).1
              ∙ k.rights (s.left n) (apart (s.left n) (l_out nz).0).0,
        ))
        (drop_least-Below s s' n r l₂ y₂ m₂ a rr q b rp bR (λ z. omega (arith, d z)) refl refl
          unlinked))

-- The least node of the right subtree takes the place of `n`.
pub st_replace_right-Focus :
    (s : Tree) (c : Around) (L l : Shape) (a : ℕ) (m : Shape) (n p : ℕ)
    → Focus s c (node L n (node l a m)) n p
    → Focus
        (st_replace_right (move_root s n (least (node l a m))) n (least (node l a m)))
        c
        (node L (least (node l a m)) (drop_least (node l a m)))
        (least (node l a m))
        p
st_replace_right-Focus s c L leaf a m n p f = near_at s c L a m n p f
st_replace_right-Focus s c L (node l₂ y₂ m₂) a m n p f = far_right s c L l₂ y₂ m₂ a m n p f
