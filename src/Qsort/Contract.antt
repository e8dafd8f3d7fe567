-- ===== src/Qsort/Contract.antt =====
-- What the quicksort promises, run by one thread and by several.
use mathlib.Core.List.{Perm}
use linux_summer.Prelude.{
  ℕ, ◌+◌, ◌≤◌, ◌<◌, ◌≡◌, refl, ap, subst, ◌∙◌, ◌⊎◌, inl, inr, List, [], some, false, Bool,
}
use linux_summer.Prelude.Int.{ℤ}
use linux_summer.Qsort.{Part, qsort_algo}
use linux_summer.Qsort.Fits.{Fits}
use linux_summer.Qsort.Shuffle.{Shuffle-outside}
use linux_summer.Qsort.Order.{Compares, Sorted}
use linux_summer.Qsort.Parts.{Together}
use linux_summer.Qsort.Correct.{qsort_algo-Sorts}
use linux_summer.Qsort.Lists.{slice, Shuffle-Perm}
use linux_summer.Qsort.Pool.{Pool, Runs, whole, Runs-Waits}

-- `qsort_algo` without other threads, for a comparison by keys and an array of fewer than 2 ^ 31 bytes: with
-- fuel above the number of elements it comes back, the `n` elements from `a` on are then in order and a
-- permutation of what they were, and no other element is touched.
pub qsort_algo-Sorted :
    {E : Type 0} (cmp : E → E → ℤ) (key : E → ℕ)
    → Compares cmp key
    → (es fuel : ℕ) (m : ℕ → E) (a n : ℕ) → Fits es n
    → n < fuel
    → (m' : ℕ → E) × (qsort_algo cmp es (λ b x y. false) fuel m a n ≡ some (m', []))
      × Sorted key m' a (a + n)
      × Perm (slice m' a n) (slice m a n)
      × ((k : ℕ) → (k < a) ⊎ (a + n ≤ k) → m' k ≡ m k)
qsort_algo-Sorted {E} cmp key laws es fuel m a n fits enough =
    let x = qsort_algo-Sorts cmp key laws es (λ b x y. false) fuel m a n fits enough in
    let none_given = x.unforked (λ b x y. refl) in
    (
      x.mem,
      x.run ∙ ap (λ (z : List Part). some (x.mem, z)) none_given,
      (λ i j p q r. elim (x.order i j p q r) [
        | inl le ↦ le
        | inr t ↦ absurd (subst (λ z. Together z i j) none_given t)
      ]),
      Shuffle-Perm a n x.shuffle,
      λ k o. Shuffle-outside k o x.shuffle,
    )

-- For a comparison by keys and an array of fewer than 2 ^ 31 bytes that several threads sort, whichever
-- parts are given away and in whichever order they are then sorted: when no part waits any more, the
-- whole array is in order and a permutation of what it was, and no other element is touched.
pub pool_sorts :
    {E : Type 0} (cmp : E → E → ℤ) (key : E → ℕ)
    → Compares cmp key
    → (es : ℕ) (forks : ℕ → ℕ → ℕ → Bool) (m : ℕ → E) (a n : ℕ) (s : Pool E) → Fits es n
    → Runs cmp es forks (whole m a n) s
    → s.waiting ≡ []
    → Sorted key s.mem a (a + n)
      × Perm (slice s.mem a n) (slice m a n)
      × ((k : ℕ) → (k < a) ⊎ (a + n ≤ k) → s.mem k ≡ m k)
pool_sorts cmp key laws es forks m a n s fits r e =
    let w = Runs-Waits cmp key laws es forks m a n fits r in
    (
      (λ i j p q t. elim (w.order i j p q t) [
        | inl le ↦ le
        | inr g ↦ absurd (subst (λ z. Together z i j) e g)
      ]),
      Shuffle-Perm a n w.shuffle,
      λ k o. Shuffle-outside k o w.shuffle,
    )
