-- ===== src/STree/Round.antt =====
-- One round of `st_update`.
use linux_summer.Prelude.{
  ℕ, ◌+◌, ◌≤◌, ◌<◌, ◌^◌, ◌≡◌, refl, ap, ◌∙◌, arith, inl, inr, ℕ_discrete, Bool-cases,
}
use linux_summer.Prelude.Int.{lt_ℤ, pos, to_short, to_short-small}
use linux_summer.STree.{Tree, side, max_hint, rebalance, set_hint}
use linux_summer.STree.Shape.{Shape, node, Around, Focus, inorder, HintsTo}
use linux_summer.STree.Climb.{Focus-Same}
use linux_summer.STree.Rebalance.{side_lem, rebalance-Kept}

max_hint_lem : (s : Tree) (m n : ℕ) → HintsTo s m → (k : ℕ) × (max_hint s n ≡ pos k) × (k ≤ m + 1)
unfolding max_hint
max_hint_lem s m n h =
    let (k, ek, bk, zk) = side_lem s m (s.left n) h in
    let (j, ej, bj, zj) = side_lem s m (s.right n) h in
    elim (Bool-cases (lt_ℤ (side s (s.right n)) (side s (s.left n)))) [
      | inl e ↦ (k, rw e ek, bk)
      | inr e ↦ (j, rw e ej, bj)
    ]

set_hint-HintsTo :
    (s : Tree) (m n : ℕ) → m + 1 < 2 ^ 15 → HintsTo s m → HintsTo (set_hint s n) (m + 1)
unfolding set_hint
set_hint-HintsTo s m n small h a =
    let (k, ek, bk) = max_hint_lem s m n h in
    let (j, ej, bj) = h a in
    elim (ℕ_discrete a n) [
      | yes e ↦ (k, ground (arith, ap to_short ek, to_short-small k (omega arith)), bk)
      | no ne ↦ (j, ground (arith, ej), omega arith)
    ]

HintsTo-same : (s s' : Tree) (m : ℕ) → ((a : ℕ) → s'.hint a ≡ s.hint a) → HintsTo s m → HintsTo s' m
HintsTo-same s s' m e h a = let (k, ek, bk) = h a in (k, e a ∙ ek, bk)

-- What one round leaves at the node: the same nodes in the same order, hints that grow by 1 at most.
pub round-Kept :
    (s : Tree) (c : Around) (l r : Shape) (n p m : ℕ)
    → m + 1 < 2 ^ 15
    → HintsTo s m
    → Focus s c (node l n r) n p
    → (t : Shape) × (x : ℕ) × Focus (set_hint (rebalance s n) n) c t x p
      × (inorder t ≡ inorder (node l n r))
      × HintsTo (set_hint (rebalance s n) n) (m + 1)
unfolding set_hint
round-Kept s c l r n p m small h f =
    let k = rebalance-Kept s c l r n p m h f in
    let b = rebalance s n in
    let t = set_hint (rebalance s n) n in
    (
      k.shape,
      k.link,
      Focus-Same (rebalance s n) (set_hint (rebalance s n) n) c k.shape k.link p
          (λ a. record { parent = refl; left = refl; right = refl }) refl k.focus,
      k.order,
      set_hint-HintsTo (rebalance s n) m n small (HintsTo-same s (rebalance s n) m k.hint h),
    )
