-- ===== src/Qsort/Correct.antt =====
-- `qsort_algo` sorts, but for the parts that it gives to other threads.
use linux_summer.Prelude.{
  ℕ, zero, suc, ◌+◌, ◌-◌, ◌/◌, ◌≤◌, ◌<◌, refl, sym, subst, ltb, Bool, Bool-cases, inl, inr, some,
  ◌>>=◌, [], if◌then◌else◌, arith,
}
use linux_summer.Prelude.Int.{ℤ, pos_part}
use linux_summer.Qsort.{
  swap, int_elements, pivot, gather, insert_from, insert_limited, split, Cut, Outcome, qsort_algo,
}
use linux_summer.Qsort.Fits.{Fits, Fits-le}
use linux_summer.Qsort.Shuffle.{Shuffle, done, one, trans}
use linux_summer.Qsort.Order.{Compares, Sorted}
use linux_summer.Qsort.Insertion.{Calm-Shuffle, insert_from-Calm, insert_from-Sorted}
use linux_summer.Qsort.Limited.{insert_limited-Calm, insert_limited_lem}
use linux_summer.Qsort.Partition.{partition-Halves}
use linux_summer.Qsort.Gather.{Thirds, gather-Thirds, gather-Shuffle}
use linux_summer.Qsort.Parts.{Sorts}
use linux_summer.Qsort.Split.{split-Sorts}
use linux_summer.Qsort.Pivot.{pivot_inside, first_cut, first_cut-Parted, Calm-Thirds}

module _ {E : Type 0} (cmp : E → E → ℤ) (key : E → ℕ) (laws : Compares cmp key) where
  module _ (forks : ℕ → ℕ → ℕ → Bool) where
    Sorts-after :
        (m m' : ℕ → E) (a n : ℕ) (o : Outcome E)
        → Shuffle a (a + n) m m'
        → Sorts key forks m' a n o
        → Sorts key forks m a n o
    Sorts-after m m' a n o s x = record {
      mem = x.mem;
      parts = x.parts;
      run = x.run;
      shuffle = trans s x.shuffle;
      order = x.order;
      unforked = x.unforked;
      apart = x.apart;
      inside = x.inside;
    }

    Sorts-Sorted :
        (m m' : ℕ → E) (a n : ℕ)
        → Shuffle a (a + n) m m'
        → Sorted key m' a (a + n)
        → Sorts key forks m a n (some (m', []))
    Sorts-Sorted m m' a n s o = record {
      mem = m';
      parts = [];
      run = refl;
      shuffle = s;
      order = λ i j p q r. inl (o i j p q r);
      unforked = λ never. refl;
      apart = λ k. omega arith;
      inside = λ k p. refl;
    }

  insertion-Sorted : (m : ℕ → E) (a n : ℕ) → Sorted key (insert_from cmp (n - 1) 1 a m) a (a + n)
  insertion-Sorted m a n i j p q r =
      insert_from-Sorted cmp key laws (n - 1) 1 a m (λ i' j' p' q' r'. absurd (omega arith)) i j p q
        (omega arith)

  small-Sorts :
      (forks : ℕ → ℕ → ℕ → Bool) (m : ℕ → E) (a n : ℕ)
      → Sorts key forks m a n (some (insert_from cmp (n - 1) 1 a m, []))
  unfolding insert_from
  small-Sorts forks m a zero = Sorts-Sorted forks m m a 0 done (λ i j p q r. absurd (omega arith))
  small-Sorts forks m a (suc n) =
      Sorts-Sorted forks m (insert_from cmp (suc n - 1) 1 a m) a (suc n)
        (Calm-Shuffle (insert_from-Calm cmp key laws (suc n - 1) 1 a (a + suc n) m (omega arith)))
        (insertion-Sorted m a (suc n))

  module _ (es : ℕ) (forks : ℕ → ℕ → ℕ → Bool) (sort : (ℕ → E) → ℕ → ℕ → Outcome E) where
    -- What follows the partition.
    abbrev rest : Cut E → ℕ → ℕ → Outcome E
    rest c a n =
        let m' = gather es c a n in
        let tried = insert_limited cmp (n - 1) 1 a (pos_part (int_elements 1 (1 + n / 4))) m' in
        if c.swapped
        then split forks sort m' a n (c.pb - c.pa) (c.pd - c.pc)
        else (if tried.1
            then some (tried.0, [])
            else split forks sort tried.0 a n (c.pb - c.pa) (c.pd - c.pc))

    rest-Sorts :
        (v a n : ℕ) (c : Cut E)
        → 7 ≤ n
        → Thirds key v a n (c.pb - c.pa) (c.pd - c.pc) (gather es c a n)
        → ((m' : ℕ → E) (a' n' : ℕ) → n' < n → Sorts key forks m' a' n' (sort m' a' n'))
        → Sorts key forks (gather es c a n) a n (rest c a n)
    rest-Sorts v a n c big t rec =
        let m' = gather es c a n in
        let tried = insert_limited cmp (n - 1) 1 a (pos_part (int_elements 1 (1 + n / 4))) m' in
        let steps =
          insert_limited-Calm cmp key laws (n - 1) 1 a (pos_part (int_elements 1 (1 + n / 4)))
            (a + n) m' (omega arith) in
        let nl = c.pb - c.pa in
        let nr = c.pd - c.pc in
        elim (Bool-cases c.swapped) [
          | inl e ↦ simp e (split-Sorts key forks sort v a n nl nr m' t rec)
          | inr e ↦ simp e (elim (Bool-cases tried.1) [
            | inl g ↦ rw g (
                Sorts-Sorted forks m' tried.0 a n (Calm-Shuffle steps) (
                  subst (λ z. Sorted key z a (a + n))
                    (sym (
                      insert_limited_lem cmp (n - 1) 1 a (pos_part (int_elements 1 (1 + n / 4))) m'
                        g))
                    (insertion-Sorted m' a n)))
            | inr g ↦ rw g (
                Sorts-after forks m' tried.0 a n (split forks sort tried.0 a n nl nr)
                  (Calm-Shuffle steps)
                  (split-Sorts key forks sort v a n nl nr tried.0
                    (Calm-Thirds key v a n nl nr m' tried.0 steps t) rec))
          ])
        ]

  -- For a comparison by keys and an array of fewer than 2 ^ 31 bytes, with fuel above the number of elements
  -- `qsort_algo` comes back. It has rearranged the `n` elements from `a` on and touched no others, they are in order but for pairs
  -- inside one of the parts that it gave away, and these parts do not overlap.
  pub qsort_algo-Sorts :
      (es : ℕ) (forks : ℕ → ℕ → ℕ → Bool) (fuel : ℕ) (m : ℕ → E) (a n : ℕ)
      → Fits es n
      → n < fuel
      → Sorts key forks m a n (qsort_algo cmp es forks fuel m a n)
  unfolding qsort_algo
  qsort_algo-Sorts es forks zero m a n fits enough = absurd (omega arith)
  qsort_algo-Sorts es forks (suc fuel) m a n fits enough =
      let sort = qsort_algo cmp es forks fuel in
      let m₁ = swap m a (pivot cmp es m a n) in
      elim (Bool-cases (ltb n 7)) [
        | inl e ↦ rw e (small-Sorts forks m a n)
        | inr e ↦
            let big : 7 ≤ n = ground (arith, e) in
            let p = pivot_inside cmp es m a n fits big in
            let h =
              partition-Halves cmp key laws (key (m₁ a)) a n (n + 1) (first_cut m₁ a n)
                (first_cut-Parted key m₁ a n big) (omega arith) in
            rw e (
              subst (λ z. Sorts key forks m a n (z >>= λ (c : Cut E). rest es forks sort c a n))
                (sym h.run)
                (Sorts-after forks m (gather es h.cut a n) a n (rest es forks sort h.cut a n)
                  (trans
                    (one m a (a + n) a (pivot cmp es m a n) (omega arith) (omega arith) p.0 p.1)
                    (trans h.shuffle
                      (gather-Shuffle key (key (m₁ a)) a n h.cut h.parted h.whole es fits)))
                  (rest-Sorts es forks sort (key (m₁ a)) a n h.cut big
                    (gather-Thirds key (key (m₁ a)) a n h.cut h.parted h.whole es fits)
                    (λ m' a' n' lt.
                      qsort_algo-Sorts es forks fuel m' a' n' (Fits-le es n' n (omega arith) fits)
                        (omega arith)))))
      ]
