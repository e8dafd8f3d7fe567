-- ===== src/STree/Rebalance.antt =====
-- The rotation that `st_update` makes at a node, and the hint that it sets.
use linux_summer.Prelude.{
  ℕ, ◌+◌, ◌≤◌, ◌≡◌, ◌≢◌, refl, sym, ap, subst, arith, inl, inr, true, ℕ_discrete, Bool-cases,
}
use linux_summer.Prelude.Int.{pos, negsuc, ◌-ℤ◌, lt_ℤ}
use linux_summer.STree.{Tree, side, balance, move_root, rotate_left, rotate_right, rebalance}
use linux_summer.STree.Shape.{Shape, leaf, node, Around, Focus, inorder, HintsTo}
use linux_summer.STree.Fields.{rotate_left-Rotated, rotate_right-Rotated}
use linux_summer.STree.Place.{parent_outside, link_within}
use linux_summer.STree.Rotate.{left-Focus, right-Focus}
use linux_summer.STree.Climb.{rotated_order}

-- The subtree of `s` at `t` is one of the same nodes in `s'`, in the same order.
pub record Kept (s s' : Tree) (c : Around) (t : Shape) (p : ℕ) : Type 0 where
  pub shape : Shape
  pub link : ℕ
  pub focus : Focus s' c shape link p
  pub order : inorder shape ≡ inorder t
  pub hint : (a : ℕ) → s'.hint a ≡ s.hint a

pub side_lem :
    (s : Tree) (m c : ℕ)
    → HintsTo s m
    → (k : ℕ) × (side s c ≡ pos k) × (k ≤ m + 1) × (c ≡ 0 → k ≡ 0)
unfolding side
side_lem s m c h = elim (ℕ_discrete c 0) [
  | yes e ↦ (0, ground arith, omega arith, λ z. refl)
  | no ne ↦ (let (k, e, b) = h c in (k + 1, ground (arith, e), omega arith, λ z. absurd (ne z)))
]

leans_right :
    (s : Tree) (m n : ℕ) → HintsTo s m → lt_ℤ (balance s n) (negsuc 0) ≡ true → s.right n ≢ 0
unfolding balance
leans_right s m n h e z =
    let (k, ek, bk, zk) = side_lem s m (s.left n) h in
    let (j, ej, bj, zj) = side_lem s m (s.right n) h in
    ground (arith, ek, ej, zj z, ap (λ t. lt_ℤ (t -ℤ side s (s.right n)) (negsuc 0)) ek, e)

leans_left : (s : Tree) (m n : ℕ) → HintsTo s m → lt_ℤ (pos 1) (balance s n) ≡ true → s.left n ≢ 0
unfolding balance
leans_left s m n h e z =
    let (k, ek, bk, zk) = side_lem s m (s.left n) h in
    let (j, ej, bj, zj) = side_lem s m (s.right n) h in ground (arith, ek, ej, zk z, e)

Kept-left :
    (s : Tree) (c : Around) (A B R : Shape) (n l p : ℕ)
    → Focus s c (node (node A l B) n R) n p
    → Kept s (rotate_left (move_root s n l) n) c (node (node A l B) n R) p
Kept-left s c A B R n l p f =
    let (n_e, n_nz, n_p, (l_e, l_nz, l_p, bA, bB), bR) = f.below in
    let d = f.distinct in
    let pb = parent_outside s c n p f.above in
    let bb = link_within s l B (s.right l) bB in
    let b = s.right l in
    let k =
      rotate_left-Rotated s n l (s.right l) p l_e refl n_p (ground (arith, d n, d l))
        (ground (arith, d n, pb)) (ground (arith, d l, pb)) (ground (arith, d n, bb))
        (ground (arith, d l, bb)) (λ nz. ground (arith, d p, pb, bb)) in
    record {
      shape = node A l (node B n R);
      link = l;
      focus = left-Focus s (rotate_left (move_root s n l) n) c A B R n l p f k;
      order = rotated_order A B R l n;
      hint = k.hint;
    }

Kept-right :
    (s : Tree) (c : Around) (A B R : Shape) (n r p : ℕ)
    → Focus s c (node A n (node B r R)) n p
    → Kept s (rotate_right (move_root s n r) n) c (node A n (node B r R)) p
Kept-right s c A B R n r p f =
    let (n_e, n_nz, n_p, bA, (r_e, r_nz, r_p, bB, bR)) = f.below in
    let d = f.distinct in
    let pb = parent_outside s c n p f.above in
    let bb = link_within s r B (s.left r) bB in
    let k =
      rotate_right-Rotated s n r (s.left r) p r_e refl n_p (ground (arith, d n, d r))
        (ground (arith, d n, pb)) (ground (arith, d r, pb)) (ground (arith, d n, bb))
        (ground (arith, d r, bb)) (λ nz. ground (arith, d p, pb, bb)) in
    record {
      shape = node (node A n B) r R;
      link = r;
      focus = right-Focus s (rotate_right (move_root s n r) n) c A B R n r p f k;
      order = sym (rotated_order A B R n r);
      hint = k.hint;
    }

turn_left :
    (s : Tree) (c : Around) (l r : Shape) (n p : ℕ)
    → s.left n ≢ 0
    → Focus s c (node l n r) n p
    → Kept s (rotate_left (move_root s n (s.left n)) n) c (node l n r) p
turn_left s c leaf r n p nz f = absurd (nz f.below.3)
turn_left s c (node A l B) r n p nz f =
    subst (λ z. Kept s (rotate_left (move_root s n z) n) c (node (node A l B) n r) p)
      (sym f.below.3.0) (Kept-left s c A B r n l p f)

turn_right :
    (s : Tree) (c : Around) (l r : Shape) (n p : ℕ)
    → s.right n ≢ 0
    → Focus s c (node l n r) n p
    → Kept s (rotate_right (move_root s n (s.right n)) n) c (node l n r) p
turn_right s c l leaf n p nz f = absurd (nz f.below.4)
turn_right s c l (node B r R) n p nz f =
    subst (λ z. Kept s (rotate_right (move_root s n z) n) c (node l n (node B r R)) p)
      (sym f.below.4.0) (Kept-right s c l B R n r p f)

-- `rebalance` rotates only towards a child that there is, and keeps the order.
pub rebalance-Kept :
    (s : Tree) (c : Around) (l r : Shape) (n p m : ℕ)
    → HintsTo s m
    → Focus s c (node l n r) n p
    → Kept s (rebalance s n) c (node l n r) p
unfolding rebalance
rebalance-Kept s c l r n p m h f = elim (Bool-cases (lt_ℤ (balance s n) (negsuc 0))) [
  | inl e ↦ rw e (turn_right s c l r n p (leans_right s m n h e) f)
  | inr e ↦ rw e (elim (Bool-cases (lt_ℤ (pos 1) (balance s n))) [
    | inl e' ↦ rw e' (turn_left s c l r n p (leans_left s m n h e') f)
    | inr e' ↦
        rw e' (record { shape = node l n r; link = n; focus = f; order = refl; hint = λ a. refl })
  ])
]
