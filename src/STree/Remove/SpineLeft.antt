-- ===== src/STree/Remove/SpineLeft.antt =====
-- The greatest node of a subtree, and the subtree without it.
use linux_summer.Prelude.{
  ℕ, zero, suc, ◌+◌, ◌≤◌, ◌<◌, ◌≡◌, ◌≢◌, refl, sym, ap, subst, ◌∙◌, ◌⊎◌, inr, ◌==◌, one_if, [], ◌∷◌,
  ◌++◌, some, ℕ_discrete, length, length-append, arith,
}
use linux_summer.STree.{Tree}
use linux_summer.STree.Shape.{Shape, leaf, node, Below, within, inorder}
use linux_summer.STree.Frame.{Below-Same, Below-adopted, within_self}
use linux_summer.STree.Place.{link_within}
use linux_summer.STree.Remove.{st_last}
use mathlib.Core.List.{append_assoc}

abbrev pub greatest : Shape → ℕ
greatest leaf = 0
greatest (node r a leaf) = a
greatest (node r a (node m b l)) = greatest (node m b l)

abbrev pub drop_greatest : Shape → Shape
drop_greatest leaf = leaf
drop_greatest (node r a leaf) = r
drop_greatest (node r a (node m b l)) = node r a (drop_greatest (node m b l))

pub inorder-greatest :
    (l : Shape) (a : ℕ) (r : Shape)
    → inorder (node r a l) ≡ inorder (drop_greatest (node r a l)) ++ (greatest (node r a l) ∷ [])
inorder-greatest leaf a r = refl
inorder-greatest (node m b l) a r =
    ap (λ z. inorder r ++ (a ∷ z)) (inorder-greatest l b m)
    ∙ sym (
        append_assoc (inorder r) (a ∷ inorder (drop_greatest (node m b l)))
          (greatest (node m b l) ∷ []))

pub within-greatest :
    (l : Shape) (a : ℕ) (r : Shape) (k : ℕ)
    → within (node r a l) k
      ≡ one_if (greatest (node r a l) == k) + within (drop_greatest (node r a l)) k
within-greatest leaf a r k = omega arith
within-greatest (node m b l) a r k = omega (arith, within-greatest l b m k)

pub st_last-greatest :
    (fuel : ℕ) (s : Tree) (p : ℕ) (l : Shape) (a : ℕ) (r : Shape) (x : ℕ)
    → Below s p (node r a l) x
    → length (inorder (node r a l)) < fuel
    → st_last fuel s x ≡ some (greatest (node r a l))
unfolding st_last
st_last-greatest zero s p l a r x b enough = absurd (omega arith)
st_last-greatest (suc fuel) s p leaf a r x (e, nz, pe, br, bl) enough =
    subst (λ z. st_last (suc fuel) s z ≡ some a) (sym e) (ground (arith, bl))
st_last-greatest (suc fuel) s p (node m b l) a r x (e, nz, pe, br, bl) enough =
    let ih =
      st_last-greatest fuel s a l b m (s.right a) bl
        (omega (arith, length-append (inorder r) (a ∷ inorder (node m b l)))) in
    subst (λ z. st_last (suc fuel) s z ≡ some (greatest (node m b l))) (sym e)
      (ground (arith, ih, bl.0, bl.1))

-- Where the greatest node `r` of the subtree at `x` hangs, if `x` is not it.
pub record Hangs (s : Tree) (t : Shape) (x r : ℕ) : Type 0 where
  pub r_within : 0 < within t r
  pub rp_within : 0 < within t (s.parent r)
  pub right_rp : s.right (s.parent r) ≡ r
  pub right_r : s.right r ≡ 0
  pub r_x : r ≢ x
  pub rp_r : s.parent r ≢ r
  pub above : s.parent r ≢ x → 0 < within t (s.parent (s.parent r))
  pub b_within : (s.left r ≡ 0) ⊎ (0 < within t (s.left r))
  pub b_apart : s.left r ≢ 0 → (s.left r ≢ x) × (s.left r ≢ r) × (s.left r ≢ s.parent r)

pub greatest-Hangs :
    (s : Tree) (p : ℕ) (l : Shape) (b : ℕ) (m : Shape) (a : ℕ) (r : Shape) (x : ℕ)
    → Below s p (node r a (node m b l)) x
    → ((k : ℕ) → within (node r a (node m b l)) k ≤ 1)
    → Hangs s (node r a (node m b l)) x (greatest (node m b l))
greatest-Hangs s p leaf b m a r x (e, nz, pe, br, (eb, bnz, pb, bm, bl)) d =
    let q = link_within s b m (s.left b) bm in
    record {
      r_within = ground arith;
      rp_within = ground (arith, pb);
      right_rp = ground (arith, pb, eb);
      right_r = bl;
      r_x = ground (arith, d b, e);
      rp_r = ground (arith, d b, pb);
      above = λ ne. absurd (ne (pb ∙ sym e));
      b_within = ground (arith, q);
      b_apart = λ z.
          (ground (arith, q, z, d x, e), ground (arith, q, z, d b), ground (arith, q, z, d a, pb));
    }
greatest-Hangs s p (node m₂ b₂ l₂) b m a r x (e, nz, pe, br, bl) d =
    let h = greatest-Hangs s a l₂ b₂ m₂ b m (s.right a) bl (λ k. omega (arith, d k)) in
    let y = greatest (node m₂ b₂ l₂) in
    record {
      r_within = omega (arith, h.r_within);
      rp_within = omega (arith, h.rp_within);
      right_rp = h.right_rp;
      right_r = h.right_r;
      r_x = ground (arith, d x, h.r_within, e);
      rp_r = h.rp_r;
      above = λ ne. elim (ℕ_discrete (s.parent y) (s.right a)) [
        | yes q ↦
            subst (λ z. 0 < within (node r a (node m b (node m₂ b₂ l₂))) z)
              (sym (ap s.parent (q ∙ bl.0) ∙ bl.2)) (within_self r (node m b (node m₂ b₂ l₂)) a)
        | no q ↦ omega (arith, h.above q)
      ];
      b_within = ground (arith, h.b_within);
      b_apart = λ z. (ground (arith, h.b_within, z, d x, e), (h.b_apart z).1, (h.b_apart z).2);
    }

-- The links of a heap `s'` in which `r`, below `rp` in `s`, has given its place to its child `b`.
pub record Unlinked (s s' : Tree) (t : Shape) (x r b rp q : ℕ) : Type 0 where
  pub parents :
      (k : ℕ) → 0 < within t k → k ≢ r → k ≢ x → (b ≡ 0) ⊎ (k ≢ b) → s'.parent k ≡ s.parent k
  pub top : s'.parent x ≡ q
  pub rights : (k : ℕ) → 0 < within t k → k ≢ r → k ≢ rp → s'.right k ≡ s.right k
  pub lefts : (k : ℕ) → 0 < within t k → k ≢ r → s'.left k ≡ s.left k
  pub lower : s'.right rp ≡ b
  pub orphan : b ≢ 0 → s'.parent b ≡ rp

pub drop_greatest-Below :
    (s s' : Tree) (p q : ℕ) (l : Shape) (y : ℕ) (m : Shape) (a : ℕ) (r : Shape) (x b rp : ℕ)
    → Below s p (node r a (node m y l)) x
    → ((k : ℕ) → within (node r a (node m y l)) k ≤ 1)
    → s.left (greatest (node m y l)) ≡ b
    → s.parent (greatest (node m y l)) ≡ rp
    → Unlinked s s' (node r a (node m y l)) x (greatest (node m y l)) b rp q
    → Below s' q (node r a (drop_greatest (node m y l))) x
drop_greatest-Below s s' p q leaf y m a r x b rp (e, nz, pe, br, (ey, ynz, py, ym, yl)) d eb erp u =
    let w : (b ≡ 0) ⊎ (0 < within m b) = link_within s y m b (subst (λ z. Below s y m z) eb ym) in
    let rp_a : rp ≡ a = sym erp ∙ py in
    let on_m =
      Below-adopted s s' y a m b
        (λ k h kb. record {
          parent =
              u.parents k (omega arith) (ground (arith, d k)) (ground (arith, d k, e)) (inr kb);
          right = u.rights k (omega arith) (ground (arith, d k)) (ground (arith, d k, rp_a));
          left = u.lefts k (omega arith) (ground (arith, d k));
        })
        (λ k. omega (arith, d k))
        (λ bnz. (
          u.orphan bnz ∙ rp_a,
          u.lefts b (ground (arith, w)) (ground (arith, d b, w)),
          u.rights b (ground (arith, w)) (ground (arith, d b, w)) (ground (arith, d b, w, rp_a)),
        ))
        (subst (λ z. Below s y m z) eb ym) in
    let on_r =
      Below-Same s s' a r (s.left a)
        (λ k h. record {
          parent =
              u.parents k (omega arith) (ground (arith, d k)) (ground (arith, d k, e))
                (ground (arith, d k, w));
          right = u.rights k (omega arith) (ground (arith, d k)) (ground (arith, d k, rp_a));
          left = u.lefts k (omega arith) (ground (arith, d k));
        })
        br in
    (
      e,
      nz,
      ap s'.parent (sym e) ∙ u.top,
      subst (λ z. Below s' a r z) (sym (u.lefts a (ground arith) (ground (arith, d y)))) on_r,
      subst (λ z. Below s' a m z) (sym (ap s'.right (sym rp_a) ∙ u.lower)) on_m,
    )
drop_greatest-Below s s' p q (node m₂ y₂ l₂) y m a r x b rp (e, nz, pe, br, bl) d eb erp u =
    let big = node m y (node m₂ y₂ l₂) in
    let r₀ = greatest (node m₂ y₂ l₂) in
    let h = greatest-Hangs s a l₂ y₂ m₂ y m (s.right a) bl (λ k. omega (arith, d k)) in
    let rp_in : 0 < within big rp = subst (λ z. 0 < within big z) erp h.rp_within in
    let b_in : (b ≡ 0) ⊎ (0 < within big b) =
      subst (λ z. (z ≡ 0) ⊎ (0 < within big z)) eb h.b_within in
    let b_top : b ≢ 0 → b ≢ s.right a = λ bnz z. (h.b_apart (λ t. bnz (sym eb ∙ t))).0 (eb ∙ z) in
    let top_in : 0 < within big (s.right a) = ground (arith, bl.0) in
    let below =
      drop_greatest-Below s s' a a l₂ y₂ m₂ y m (s.right a) b rp bl (λ k. omega (arith, d k)) eb erp
        (record {
          parents =
              λ k i kr kx kb. u.parents k (omega (arith, i)) kr (ground (arith, d k, i, e)) kb;
          top =
              u.parents (s.right a) (omega (arith, top_in)) (λ z. h.r_x (sym z))
                (ground (arith, d (s.right a), top_in, e)) (ground (arith, b_top))
              ∙ ap s.parent bl.0
              ∙ bl.2;
          rights = λ k i kr kp. u.rights k (omega (arith, i)) kr kp;
          lefts = λ k i kr. u.lefts k (omega (arith, i)) kr;
          lower = u.lower;
          orphan = u.orphan;
        }) in
    let on_r =
      Below-Same s s' a r (s.left a)
        (λ k i. record {
          parent =
              u.parents k (omega (arith, i)) (ground (arith, d k, i, h.r_within))
                (ground (arith, d k, i, e)) (ground (arith, d k, i, b_in));
          right =
              u.rights k (omega (arith, i)) (ground (arith, d k, i, h.r_within))
                (ground (arith, d k, i, rp_in));
          left = u.lefts k (omega (arith, i)) (ground (arith, d k, i, h.r_within));
        })
        br in
    (
      e,
      nz,
      ap s'.parent (sym e) ∙ u.top,
      subst (λ z. Below s' a r z)
          (sym (u.lefts a (within_self r big a) (ground (arith, d a, h.r_within)))) on_r,
      subst (λ z. Below s' a (drop_greatest big) z)
          (sym (
            u.rights a (within_self r big a) (ground (arith, d a, h.r_within))
              (ground (arith, d a, rp_in))))
          below,
    )
