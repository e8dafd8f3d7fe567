-- ===== src/Qsort/Lists.antt =====
-- The elements of a part as a list: a rearrangement is a permutation of it.
use mathlib.Core.List.{Perm}
use mathlib.Core.List.Perm
use linux_summer.Prelude.{
  ℕ, zero, suc, ◌+◌, ◌≤◌, ◌<◌, ◌≡◌, refl, sym, ap, ap₂, subst, fun_ext, update, List, [], ◌∷◌,
  ℕ_discrete, arith,
}
use linux_summer.Qsort.{swap}
use linux_summer.Qsort.Shuffle.{Shuffle, done, exchange}

module _ {E : Type 0} where
  abbrev pub slice : (ℕ → E) → ℕ → ℕ → List E
  slice m a zero = []
  slice m a (suc n) = m a ∷ slice m (a + 1) n

  slice_same :
      (m m' : ℕ → E) (a n : ℕ) → ((k : ℕ) → a ≤ k → m k ≡ m' k) → slice m a n ≡ slice m' a n
  slice_same m m' a zero h = refl
  slice_same m m' a (suc n) h =
      ap₂ (λ (h : E) (t : List E). h ∷ t) (h a (omega arith))
        (slice_same m m' (a + 1) n (λ k p. h k (omega arith)))

  -- A write trades the old element for the new one.
  slice-update :
      (m : ℕ → E) (a n i : ℕ) (x : E)
      → a ≤ i
      → i < a + n
      → Perm (m i ∷ slice (update m i x) a n) (x ∷ slice m a n)
  slice-update m a zero i x p q = absurd (omega arith)
  slice-update m a (suc n) i x p q = elim (ℕ_discrete i a) [
    | yes e ↦
        let old : m i ≡ m a = ap m e in
        let new : update m i x a ≡ x = ground (arith, e) in
        let rest = slice_same (update m i x) m (a + 1) n (λ k p. ground (arith, e)) in
        subst (λ z. Perm z (x ∷ (m a ∷ slice m (a + 1) n)))
          (sym (
            ap₂ (λ (h : E) (t : List E). h ∷ t) old (ap₂ (λ (h : E) (t : List E). h ∷ t) new rest)))
          (Perm.swap x (m a) (slice m (a + 1) n))
    | no ne ↦
        let same : update m i x a ≡ m a = ground (arith, ne) in
        let rest = slice (update m i x) (a + 1) n in
        subst (λ z. Perm (m i ∷ (z ∷ rest)) (x ∷ (m a ∷ slice m (a + 1) n))) (sym same)
          (Perm.trans (Perm.swap (m a) (m i) rest) (
            Perm.trans
              (Perm.cons (m a) (slice-update m (a + 1) n i x (omega (arith, ne)) (omega arith)))
              (Perm.swap x (m a) (slice m (a + 1) n))))
  ]

  swap-update : (m : ℕ → E) (i j : ℕ) → swap m i j ≡ update (update m i (m j)) j (m i)
  unfolding swap
  swap-update m i j = fun_ext (λ k. ground arith)

  slice-swap :
      (m : ℕ → E) (a n i j : ℕ)
      → a ≤ i
      → i < a + n
      → a ≤ j
      → j < a + n
      → Perm (slice (swap m i j) a n) (slice m a n)
  slice-swap m a n i j p q r s =
      let b = update m i (m j) in
      let kept : b j ≡ m j = ground arith in
      let second = slice-update b a n j (m i) r s in
      let first = slice-update m a n i (m j) p q in
      subst (λ f. Perm (slice f a n) (slice m a n)) (sym (swap-update m i j))
        (Perm.cons_inv (
          subst (λ z. Perm (z ∷ slice (update b j (m i)) a n) (m j ∷ slice m a n)) kept
            (Perm.trans second first)))

  pub Shuffle-Perm :
      (a n : ℕ) {m m' : ℕ → E} → Shuffle a (a + n) m m' → Perm (slice m' a n) (slice m a n)
  Shuffle-Perm a n done = Perm.rfl
  Shuffle-Perm a n {m} (exchange i j p q r s rest) =
      Perm.trans (Shuffle-Perm a n rest) (slice-swap m a n i j p q r s)
