-- ===== src/STree/Remove/Spine.antt =====
-- The least node of a subtree, and the subtree without it.
use linux_summer.Prelude.{
  ℕ, zero, suc, ◌+◌, ◌≤◌, ◌<◌, ◌≡◌, ◌≢◌, refl, sym, ap, subst, ◌∙◌, ◌⊎◌, inr, ◌==◌, one_if, ◌∷◌,
  ◌++◌, some, ℕ_discrete, length, length-append, arith,
}
use linux_summer.STree.{Tree}
use linux_summer.STree.Shape.{Shape, leaf, node, Below, within, inorder}
use linux_summer.STree.Frame.{Below-Same, Below-adopted, within_self}
use linux_summer.STree.Place.{link_within}
use linux_summer.STree.Remove.{st_first}

abbrev pub least : Shape → ℕ
least leaf = 0
least (node leaf a r) = a
least (node (node l b m) a r) = least (node l b m)

abbrev pub drop_least : Shape → Shape
drop_least leaf = leaf
drop_least (node leaf a r) = r
drop_least (node (node l b m) a r) = node (drop_least (node l b m)) a r

pub inorder-least :
    (l : Shape) (a : ℕ) (r : Shape)
    → inorder (node l a r) ≡ least (node l a r) ∷ inorder (drop_least (node l a r))
inorder-least leaf a r = refl
inorder-least (node l b m) a r = ap (λ z. z ++ (a ∷ inorder r)) (inorder-least l b m)

pub within-least :
    (l : Shape) (a : ℕ) (r : Shape) (k : ℕ)
    → within (node l a r) k ≡ one_if (least (node l a r) == k) + within (drop_least (node l a r)) k
within-least leaf a r k = omega arith
within-least (node l b m) a r k = omega (arith, within-least l b m k)

pub st_first-least :
    (fuel : ℕ) (s : Tree) (p : ℕ) (l : Shape) (a : ℕ) (r : Shape) (x : ℕ)
    → Below s p (node l a r) x
    → length (inorder (node l a r)) < fuel
    → st_first fuel s x ≡ some (least (node l a r))
unfolding st_first
st_first-least zero s p l a r x b enough = absurd (omega arith)
st_first-least (suc fuel) s p leaf a r x (e, nz, pe, bl, br) enough =
    subst (λ z. st_first (suc fuel) s z ≡ some a) (sym e) (ground (arith, bl))
st_first-least (suc fuel) s p (node l b m) a r x (e, nz, pe, bl, br) enough =
    let ih =
      st_first-least fuel s a l b m (s.left a) bl
        (omega (arith, length-append (inorder (node l b m)) (a ∷ inorder r))) in
    subst (λ z. st_first (suc fuel) s z ≡ some (least (node l b m))) (sym e)
      (ground (arith, ih, bl.0, bl.1))

-- Where the least node `r` of the subtree at `x` hangs, if `x` is not it.
pub record Hangs (s : Tree) (t : Shape) (x r : ℕ) : Type 0 where
  pub r_within : 0 < within t r
  pub rp_within : 0 < within t (s.parent r)
  pub left_rp : s.left (s.parent r) ≡ r
  pub left_r : s.left r ≡ 0
  pub r_x : r ≢ x
  pub rp_r : s.parent r ≢ r
  pub above : s.parent r ≢ x → 0 < within t (s.parent (s.parent r))
  pub b_within : (s.right r ≡ 0) ⊎ (0 < within t (s.right r))
  pub b_apart : s.right r ≢ 0 → (s.right r ≢ x) × (s.right r ≢ r) × (s.right r ≢ s.parent r)

pub least-Hangs :
    (s : Tree) (p : ℕ) (l : Shape) (b : ℕ) (m : Shape) (a : ℕ) (r : Shape) (x : ℕ)
    → Below s p (node (node l b m) a r) x
    → ((k : ℕ) → within (node (node l b m) a r) k ≤ 1)
    → Hangs s (node (node l b m) a r) x (least (node l b m))
least-Hangs s p leaf b m a r x (e, nz, pe, (eb, bnz, pb, bl, bm), br) d =
    let q = link_within s b m (s.right b) bm in
    record {
      r_within = ground arith;
      rp_within = ground (arith, pb);
      left_rp = ground (arith, pb, eb);
      left_r = bl;
      r_x = ground (arith, d b, e);
      rp_r = ground (arith, d b, pb);
      above = λ ne. absurd (ne (pb ∙ sym e));
      b_within = ground (arith, q);
      b_apart = λ z.
          (ground (arith, q, z, d x, e), ground (arith, q, z, d b), ground (arith, q, z, d a, pb));
    }
least-Hangs s p (node l₂ b₂ m₂) b m a r x (e, nz, pe, bl, br) d =
    let h = least-Hangs s a l₂ b₂ m₂ b m (s.left a) bl (λ k. omega (arith, d k)) in
    let y = least (node l₂ b₂ m₂) in
    record {
      r_within = omega (arith, h.r_within);
      rp_within = omega (arith, h.rp_within);
      left_rp = h.left_rp;
      left_r = h.left_r;
      r_x = ground (arith, d x, h.r_within, e);
      rp_r = h.rp_r;
      above = λ ne. elim (ℕ_discrete (s.parent y) (s.left a)) [
        | yes q ↦
            subst (λ z. 0 < within (node (node (node l₂ b₂ m₂) b m) a r) z)
              (sym (ap s.parent (q ∙ bl.0) ∙ bl.2)) (within_self (node (node l₂ b₂ m₂) b m) r a)
        | no q ↦ omega (arith, h.above q)
      ];
      b_within = ground (arith, h.b_within);
      b_apart = λ z. (ground (arith, h.b_within, z, d x, e), (h.b_apart z).1, (h.b_apart z).2);
    }

-- The links of a heap `s'` in which `r`, below `rp` in `s`, has given its place to its child `b`.
pub record Unlinked (s s' : Tree) (t : Shape) (x r b rp q : ℕ) : Type 0 where
  pub parents :
      (k : ℕ) → 0 < within t k → k ≢ r → k ≢ x → (b ≡ 0) ⊎ (k ≢ b) → s'.parent k ≡ s.parent k
  pub top : s'.parent x ≡ q
  pub lefts : (k : ℕ) → 0 < within t k → k ≢ r → k ≢ rp → s'.left k ≡ s.left k
  pub rights : (k : ℕ) → 0 < within t k → k ≢ r → s'.right k ≡ s.right k
  pub lower : s'.left rp ≡ b
  pub orphan : b ≢ 0 → s'.parent b ≡ rp

pub drop_least-Below :
    (s s' : Tree) (p q : ℕ) (l : Shape) (y : ℕ) (m : Shape) (a : ℕ) (r : Shape) (x b rp : ℕ)
    → Below s p (node (node l y m) a r) x
    → ((k : ℕ) → within (node (node l y m) a r) k ≤ 1)
    → s.right (least (node l y m)) ≡ b
    → s.parent (least (node l y m)) ≡ rp
    → Unlinked s s' (node (node l y m) a r) x (least (node l y m)) b rp q
    → Below s' q (node (drop_least (node l y m)) a r) x
drop_least-Below s s' p q leaf y m a r x b rp (e, nz, pe, (ey, ynz, py, yl, ym), br) d eb erp u =
    let w : (b ≡ 0) ⊎ (0 < within m b) = link_within s y m b (subst (λ z. Below s y m z) eb ym) in
    let rp_a : rp ≡ a = sym erp ∙ py in
    let on_m =
      Below-adopted s s' y a m b
        (λ k h kb. record {
          parent =
              u.parents k (omega arith) (ground (arith, d k)) (ground (arith, d k, e)) (inr kb);
          left = u.lefts k (omega arith) (ground (arith, d k)) (ground (arith, d k, rp_a));
          right = u.rights k (omega arith) (ground (arith, d k));
        })
        (λ k. omega (arith, d k))
        (λ bnz. (
          u.orphan bnz ∙ rp_a,
          u.lefts b (ground (arith, w)) (ground (arith, d b, w)) (ground (arith, d b, w, rp_a)),
          u.rights b (ground (arith, w)) (ground (arith, d b, w)),
        ))
        (subst (λ z. Below s y m z) eb ym) in
    let on_r =
      Below-Same s s' a r (s.right a)
        (λ k h. record {
          parent =
              u.parents k (omega arith) (ground (arith, d k)) (ground (arith, d k, e))
                (ground (arith, d k, w));
          left = u.lefts k (omega arith) (ground (arith, d k)) (ground (arith, d k, rp_a));
          right = u.rights k (omega arith) (ground (arith, d k));
        })
        br in
    (
      e,
      nz,
      ap s'.parent (sym e) ∙ u.top,
      subst (λ z. Below s' a m z) (sym (ap s'.left (sym rp_a) ∙ u.lower)) on_m,
      subst (λ z. Below s' a r z) (sym (u.rights a (ground arith) (ground (arith, d y)))) on_r,
    )
drop_least-Below s s' p q (node l₂ y₂ m₂) y m a r x b rp (e, nz, pe, bl, br) d eb erp u =
    let big = node (node l₂ y₂ m₂) y m in
    let r₀ = least (node l₂ y₂ m₂) in
    let h = least-Hangs s a l₂ y₂ m₂ y m (s.left a) bl (λ k. omega (arith, d k)) in
    let rp_in : 0 < within big rp = subst (λ z. 0 < within big z) erp h.rp_within in
    let b_in : (b ≡ 0) ⊎ (0 < within big b) =
      subst (λ z. (z ≡ 0) ⊎ (0 < within big z)) eb h.b_within in
    let b_top : b ≢ 0 → b ≢ s.left a = λ bnz z. (h.b_apart (λ t. bnz (sym eb ∙ t))).0 (eb ∙ z) in
    let top_in : 0 < within big (s.left a) = ground (arith, bl.0) in
    let below =
      drop_least-Below s s' a a l₂ y₂ m₂ y m (s.left a) b rp bl (λ k. omega (arith, d k)) eb erp
        (record {
          parents =
              λ k i kr kx kb. u.parents k (omega (arith, i)) kr (ground (arith, d k, i, e)) kb;
          top =
              u.parents (s.left a) (omega (arith, top_in)) (λ z. h.r_x (sym z))
                (ground (arith, d (s.left a), top_in, e)) (ground (arith, b_top))
              ∙ ap s.parent bl.0
              ∙ bl.2;
          lefts = λ k i kr kp. u.lefts k (omega (arith, i)) kr kp;
          rights = λ k i kr. u.rights k (omega (arith, i)) kr;
          lower = u.lower;
          orphan = u.orphan;
        }) in
    let on_r =
      Below-Same s s' a r (s.right a)
        (λ k i. record {
          parent =
              u.parents k (omega (arith, i)) (ground (arith, d k, i, h.r_within))
                (ground (arith, d k, i, e)) (ground (arith, d k, i, b_in));
          left =
              u.lefts k (omega (arith, i)) (ground (arith, d k, i, h.r_within))
                (ground (arith, d k, i, rp_in));
          right = u.rights k (omega (arith, i)) (ground (arith, d k, i, h.r_within));
        })
        br in
    (
      e,
      nz,
      ap s'.parent (sym e) ∙ u.top,
      subst (λ z. Below s' a (drop_least big) z)
          (sym (
            u.lefts a (within_self big r a) (ground (arith, d a, h.r_within))
              (ground (arith, d a, rp_in))))
          below,
      subst (λ z. Below s' a r z)
          (sym (u.rights a (within_self big r a) (ground (arith, d a, h.r_within)))) on_r,
    )
