-- ===== src/Qsort/Shuffle.antt =====
-- Rearrangements of a part of the memory, by exchanges inside it.
use linux_summer.Prelude.{
  ℕ, ◌≤◌, ◌<◌, ◌≡◌, refl, sym, ◌∙◌, Bool-cases, subst, ◌⊎◌, inl, inr, ◌==◌, arith,
}
use linux_summer.Qsort.{swap}

pub data Shuffle {E : Type 0} (lo hi : ℕ) : (ℕ → E) → (ℕ → E) → Type 0 where
  done : {m : ℕ → E} → Shuffle lo hi m m
  exchange :
      {m m' : ℕ → E} (i j : ℕ)
      → lo ≤ i
      → i < hi
      → lo ≤ j
      → j < hi
      → Shuffle lo hi (swap m i j) m'
      → Shuffle lo hi m m'

module _ {E : Type 0} where
  swap-cases :
      (m : ℕ → E) (i j k : ℕ) → (swap m i j k ≡ m i) ⊎ ((swap m i j k ≡ m j) ⊎ (swap m i j k ≡ m k))
  unfolding swap
  swap-cases m i j k = elim (Bool-cases (k == j)) [
    | inl e ↦ inl (ground (arith, e))
    | inr e ↦ elim (Bool-cases (k == i)) [
      | inl e' ↦ inr (inl (ground (arith, e, e')))
      | inr e' ↦ inr (inr (ground (arith, e, e')))
    ]
  ]

  pub one :
      (m : ℕ → E) (lo hi i j : ℕ) → lo ≤ i → i < hi → lo ≤ j → j < hi → Shuffle lo hi m (swap m i j)
  one m lo hi i j a b c d = exchange i j a b c d done

  pub trans :
      {lo hi : ℕ} {m m' m'' : ℕ → E}
      → Shuffle lo hi m m'
      → Shuffle lo hi m' m''
      → Shuffle lo hi m m''
  trans done s = s
  trans (exchange i j a b c d r) s = exchange i j a b c d (trans r s)

  pub widen :
      {lo hi : ℕ} {m m' : ℕ → E} (l h : ℕ) → l ≤ lo → hi ≤ h → Shuffle lo hi m m' → Shuffle l h m m'
  widen l h p q done = done
  widen l h p q (exchange i j a b c d r) =
      exchange i j (omega arith) (omega arith) (omega arith) (omega arith) (widen l h p q r)

  pub Shuffle-outside :
      {lo hi : ℕ} {m m' : ℕ → E} (k : ℕ) → (k < lo) ⊎ (hi ≤ k) → Shuffle lo hi m m' → m' k ≡ m k
  unfolding swap
  Shuffle-outside k o done = refl
  Shuffle-outside {m = m} k o (exchange i j a b c d r) = Shuffle-outside k o r ∙ ground (arith, o)

  -- What holds of every element of the part holds of them after it.
  pub Shuffle-all :
      {lo hi : ℕ} {m m' : ℕ → E} (P : E → Type 0)
      → Shuffle lo hi m m'
      → ((k : ℕ) → lo ≤ k → k < hi → P (m k))
      → (k : ℕ) → lo ≤ k
      → k < hi
      → P (m' k)
  Shuffle-all P done h = h
  Shuffle-all {lo} {hi} {m} P (exchange i j a b c d r) h = Shuffle-all P r (λ k p q. swapped k p q)
    where
      swapped : (k : ℕ) → lo ≤ k → k < hi → P (swap m i j k)
      swapped k p q = elim (swap-cases m i j k) [
        | inl e ↦ subst P (sym e) (h i a b)
        | inr (inl e) ↦ subst P (sym e) (h j c d)
        | inr (inr e) ↦ subst P (sym e) (h k p q)
      ]
