-- ===== src/Qsort/Exchange.antt =====
-- What `vec_swap` leaves in the memory.
use linux_summer.Prelude.{
  ℕ, zero, suc, ◌+◌, ◌-◌, ◌≤◌, ◌<◌, ◌≡◌, refl, ap, ◌∙◌, ◌⊎◌, inl, inr, ℕ_discrete, arith,
}
use linux_summer.Qsort.{swap, vec_swap}
use linux_summer.Qsort.Shuffle.{Shuffle, done, exchange}

module _ {E : Type 0} where
  pub vec_swap-Shuffle :
      (n i j lo hi : ℕ) (m : ℕ → E)
      → lo ≤ i
      → i + n ≤ hi
      → lo ≤ j
      → j + n ≤ hi
      → Shuffle lo hi m (vec_swap n i j m)
  unfolding vec_swap
  vec_swap-Shuffle zero i j lo hi m a b c d = done
  vec_swap-Shuffle (suc n) i j lo hi m a b c d = exchange i j a (omega arith) c (omega arith) (
      vec_swap-Shuffle n (i + 1) (j + 1) lo hi (swap m i j) (omega arith) (omega arith)
        (omega arith) (omega arith))

  pub vec_swap_outside :
      (n i j : ℕ) (m : ℕ → E) (k : ℕ)
      → (k < i) ⊎ (i + n ≤ k)
      → (k < j) ⊎ (j + n ≤ k)
      → vec_swap n i j m k ≡ m k
  unfolding vec_swap swap
  vec_swap_outside zero i j m k p q = refl
  vec_swap_outside (suc n) i j m k p q =
      vec_swap_outside n (i + 1) (j + 1) (swap m i j) k (omega (arith, p)) (omega (arith, q))
      ∙ ground (arith, p, q)

  -- Two blocks that do not overlap change places.
  pub vec_swap_first :
      (n i j : ℕ) (m : ℕ → E) (k : ℕ)
      → i + n ≤ j
      → i ≤ k
      → k < i + n
      → vec_swap n i j m k ≡ m (j + (k - i))
  unfolding vec_swap swap
  vec_swap_first zero i j m k apart low high = absurd (omega arith)
  vec_swap_first (suc n) i j m k apart low high = elim (ℕ_discrete k i) [
    | yes e ↦
        vec_swap_outside n (i + 1) (j + 1) (swap m i j) k (inl (omega arith)) (inl (omega arith))
        ∙ ground (arith, ap m {x = j + (k - i)} {y = j} (omega (arith, e)))
    | no ne ↦
        vec_swap_first n (i + 1) (j + 1) (swap m i j) k (omega arith) (omega arith) (omega arith)
        ∙ ground (arith, ap m {x = j + 1 + (k - (i + 1))} {y = j + (k - i)} (omega arith))
  ]

  pub vec_swap_second :
      (n i j : ℕ) (m : ℕ → E) (k : ℕ)
      → i + n ≤ j
      → j ≤ k
      → k < j + n
      → vec_swap n i j m k ≡ m (i + (k - j))
  unfolding vec_swap swap
  vec_swap_second zero i j m k apart low high = absurd (omega arith)
  vec_swap_second (suc n) i j m k apart low high = elim (ℕ_discrete k j) [
    | yes e ↦
        vec_swap_outside n (i + 1) (j + 1) (swap m i j) k (inr (omega arith)) (inl (omega arith))
        ∙ ground (arith, ap m {x = i + (k - j)} {y = i} (omega (arith, e)))
    | no ne ↦
        vec_swap_second n (i + 1) (j + 1) (swap m i j) k (omega arith) (omega arith) (omega arith)
        ∙ ground (arith, ap m {x = i + 1 + (k - (j + 1))} {y = i + (k - j)} (omega arith))
  ]
