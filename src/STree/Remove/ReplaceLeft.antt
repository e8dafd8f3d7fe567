-- ===== src/STree/Remove/ReplaceLeft.antt =====
-- `st_replace_left`: the greatest node on the left takes the place of `n`.
use linux_summer.Prelude.{ℕ, ◌<◌, ◌≡◌, ◌≢◌, refl, sym, ap, subst, ◌∙◌, ◌⊎◌, arith}
use linux_summer.STree.{Tree, move_root}
use linux_summer.STree.Shape.{Shape, leaf, node, Around, within, outside, Focus}
use linux_summer.STree.Frame.{Same}
use linux_summer.STree.Place.{parent_outside, link_within, avoids}
use linux_summer.STree.Remove.{link_left, st_replace_left}
use linux_summer.STree.Remove.Fields.{link_left-Linked, move_root_root, move_root_parent}
use linux_summer.STree.Contract.{within-null}
use linux_summer.STree.Remove.DetachLeft.{detach_left, detach_left_root, moved_left-Detached}
use linux_summer.STree.Remove.SpineLeft.{
  greatest, drop_greatest, within-greatest, greatest-Hangs, Unlinked, drop_greatest-Below,
}
use linux_summer.STree.Remove.MovedLeft.{Moved, Moved-Focus}
use linux_summer.STree.Remove.NearLeft.{near_at}

far_left :
    (s : Tree) (c : Around) (L : Shape) (l₂ : Shape) (y₂ : ℕ) (m₂ : Shape) (a : ℕ) (rr : Shape)
    (n p : ℕ)
    → Focus s c (node (node rr a (node m₂ y₂ l₂)) n L) n p
    → Focus
        (st_replace_left (move_root s n (greatest (node m₂ y₂ l₂))) n (greatest (node m₂ y₂ l₂)))
        c
        (node (node rr a (drop_greatest (node m₂ y₂ l₂))) (greatest (node m₂ y₂ l₂)) L)
        (greatest (node m₂ y₂ l₂))
        p
unfolding st_replace_left
far_left s c L l₂ y₂ m₂ a rr n p f =
    let (n_e, n_nz, n_p, bR, bL) = f.below in
    let R = node rr a (node m₂ y₂ l₂) in
    let R' = node rr a (drop_greatest (node m₂ y₂ l₂)) in
    let r = greatest (node m₂ y₂ l₂) in
    let rp = s.parent r in
    let b = s.left r in
    let q = s.left n in
    let d = f.distinct in
    let pb = parent_outside s c n p f.above in
    let lb = link_within s n L (s.right n) bL in
    let h = greatest-Hangs s n l₂ y₂ m₂ a rr q bR (λ k. omega (arith, d k)) in
    let q_a : q ≡ a = bR.0 in
    let q_in : 0 < within R q = ground (arith, q_a) in
    let t = detach_left (move_root s n r) n r in
    let s' = link_left t p n r in
    let k =
      moved_left-Detached s n r (s.right n) q b rp p refl refl n_p refl h.right_rp refl
        (λ ne z. ground (arith, d n, h.above ne, z)) (ground (arith, d n, h.r_within))
        (λ z. h.r_x (sym z)) h.rp_r (ground (arith, d n, h.rp_within)) h.b_apart in
    let r_nz : r ≢ 0 = λ z. ground (arith, within-null s n R q bR, ap (within R) z, h.r_within) in
    let t_l : t.right n ≡ s.right n =
      k.rights n (ground (arith, d n, h.r_within)) (ground (arith, d n, h.rp_within)) in
    let w = link_left-Linked t n r (s.right n) p t_l (ground (arith, d n, pb, n_nz)) in
    let off_p : (z : ℕ) → outside c z ≡ 0 → (p ≡ 0) ⊎ (z ≢ p) = λ z. avoids (outside c) p z pb in
    let off_l : (z : ℕ) → within L z ≡ 0 → (s.right n ≡ 0) ⊎ (z ≢ s.right n) =
      λ z. avoids (within L) (s.right n) z lb in
    let off_b : (z : ℕ) → within R z ≡ 0 → (b ≡ 0) ⊎ (z ≢ b) =
      λ z. avoids (within R) b z h.b_within in
    let apart : (z : ℕ) → within R z ≡ 0 → (z ≢ r) × (z ≢ q) × (z ≢ rp) = λ z o. (
      ground (arith, o, h.r_within, ap (within R)),
      ground (arith, o, q_in, ap (within R)),
      ground (arith, o, h.rp_within, ap (within R)),
    ) in
    let p_out : p ≢ 0 → within R p ≡ 0 = λ nz. ground (arith, d p, pb, nz) in
    let p_l : p ≢ 0 → within L p ≡ 0 = λ nz. ground (arith, d p, pb, nz) in
    let moved : Moved s s' n r (s.right n) q p = record {
      root = w.root ∙ detach_left_root (move_root s n r) n r ∙ move_root_root s n r;
      above = λ nz.
          w.parents p (off_l p (p_l nz))
          ∙ k.parents p (apart p (p_out nz)).0 (apart p (p_out nz)).1 (off_b p (p_out nz));
      as_left = λ nz e.
          let same = k.lefts p (apart p (p_out nz)).0 in
          let g = w.as_left nz (same ∙ e) in
          (g.0, g.1 ∙ k.rights p (apart p (p_out nz)).0 (apart p (p_out nz)).2);
      as_right = λ nz e.
          let same = k.lefts p (apart p (p_out nz)).0 in
          let g = w.as_right nz (λ x. e (sym same ∙ x)) in (g.0, g.1 ∙ same);
      new = (
        w.parents r (off_l r (ground (arith, d r, h.r_within))) ∙ k.new.0,
        (w.links r (off_p r (ground (arith, d r, h.r_within)))).1 ∙ k.new.1,
        (w.links r (off_p r (ground (arith, d r, h.r_within)))).0 ∙ k.new.2,
      );
      child = w.child;
    } in
    let kept : (z : ℕ)
        → within R z ≡ 0
        → (p ≡ 0) ⊎ (z ≢ p)
        → (s.right n ≡ 0) ⊎ (z ≢ s.right n)
        → Same s s' z =
      λ z o zp zl. record {
        parent = w.parents z zl ∙ k.parents z (apart z o).0 (apart z o).1 (off_b z o);
        right = (w.links z zp).1 ∙ k.rights z (apart z o).0 (apart z o).2;
        left = (w.links z zp).0 ∙ k.lefts z (apart z o).0;
      } in
    let l_out : s.right n ≢ 0 → (within R (s.right n) ≡ 0) × (outside c (s.right n) ≡ 0) =
      λ nz. (ground (arith, d (s.right n), lb, nz), ground (arith, d (s.right n), lb, nz)) in
    let unlinked : Unlinked s s' R q r b rp r = record {
      parents =
          λ z i zr zq zb. w.parents z (off_l z (omega (arith, d z, i))) ∙ k.parents z zr zq zb;
      top = w.parents q (off_l q (omega (arith, d q, q_in))) ∙ k.upper;
      rights = λ z i zr zrp. (w.links z (off_p z (omega (arith, d z, i)))).1 ∙ k.rights z zr zrp;
      lefts = λ z i zr. (w.links z (off_p z (omega (arith, d z, i)))).0 ∙ k.lefts z zr;
      lower = (w.links rp (off_p rp (omega (arith, d rp, h.rp_within)))).1 ∙ k.lower;
      orphan = λ nz. w.parents b (off_l b (ground (arith, d b, h.b_within, nz))) ∙ k.orphan nz;
    } in
    subst (λ z. Focus (link_left t z n r) c (node R' r L) r p)
      (sym (move_root_parent s n r n ∙ n_p))
      (Moved-Focus s s' c L R R' n r q p f moved r_nz (within-greatest (node m₂ y₂ l₂) a rr)
        (λ z o zp zl. kept z (ground (arith, d z, o)) zp zl)
        (λ nz. (
          (w.links (s.right n) (off_p (s.right n) (l_out nz).1)).1
              ∙ k.rights (s.right n) (apart (s.right n) (l_out nz).0).0
                  (apart (s.right n) (l_out nz).0).2,
          (w.links (s.right n) (off_p (s.right n) (l_out nz).1)).0
              ∙ k.lefts (s.right n) (apart (s.right n) (l_out nz).0).0,
        ))
        (drop_greatest-Below s s' n r l₂ y₂ m₂ a rr q b rp bR (λ z. omega (arith, d z)) refl refl
          unlinked))

-- The greatest node of the left subtree takes the place of `n`.
pub st_replace_left-Focus :
    (s : Tree) (c : Around) (L l : Shape) (a : ℕ) (m : Shape) (n p : ℕ)
    → Focus s c (node (node m a l) n L) n p
    → Focus
        (st_replace_left (move_root s n (greatest (node m a l))) n (greatest (node m a l)))
        c
        (node (drop_greatest (node m a l)) (greatest (node m a l)) L)
        (greatest (node m a l))
        p
st_replace_left-Focus s c L leaf a m n p f = near_at s c L a m n p f
st_replace_left-Focus s c L (node m₂ y₂ l₂) a m n p f = far_left s c L l₂ y₂ m₂ a m n p f
