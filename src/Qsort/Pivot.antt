-- ===== src/Qsort/Pivot.antt =====
-- The pivot is in the array, and the partition starts parted.
use linux_summer.Prelude.{
  ℕ, ◌≡◌, ◌+◌, ◌-◌, ◌*◌, ◌/◌, ◌≤◌, ◌<◌, ap, ltb, false, Bool-cases, inl, inr, arith,
}
use linux_summer.Prelude.Int.{ℤ, pos, pos_part, neg_part}
use linux_summer.Qsort.{swap, int_elements, forth, back, med3, pivot, Cut}
use linux_summer.Qsort.Fits.{Fits, Fits-le, int_elements-Fits}
use linux_summer.Qsort.Insertion.{Calm, calm, calmer}
use linux_summer.Qsort.Scan.{Parted}
use linux_summer.Qsort.Gather.{Thirds}

module _ {E : Type 0} (cmp : E → E → ℤ) where
  pub med3_inside :
      (m : ℕ → E) (lo hi a b c : ℕ)
      → (lo ≤ a) × (a < hi)
      → (lo ≤ b) × (b < hi)
      → (lo ≤ c) × (c < hi)
      → (lo ≤ med3 cmp m a b c) × (med3 cmp m a b c < hi)
  unfolding med3
  med3_inside m lo hi a b c ha hb hc = (ground arith, ground arith)

  pub pivot_inside :
      (es : ℕ) (m : ℕ → E) (a n : ℕ)
      → Fits es n
      → 7 ≤ n
      → (a ≤ pivot cmp es m a n) × (pivot cmp es m a n < a + n)
  unfolding pivot
  pivot_inside es m a n fits big =
      let eighth : int_elements es (n / 8) ≡ pos (n / 8) =
        int_elements-Fits es (n / 8) (Fits-le es (n / 8) n (omega arith) fits) in
      let quarter : int_elements es (2 * (n / 8)) ≡ pos (2 * (n / 8)) =
        int_elements-Fits es (2 * (n / 8)) (Fits-le es (2 * (n / 8)) n (omega arith) fits) in
      let d = int_elements es (n / 8) in
      let twice = int_elements es (2 * (n / 8)) in
      let d_parts : (pos_part d ≡ n / 8) × (neg_part d ≡ 0) =
        (ap pos_part eighth, ap neg_part eighth) in
      let twice_parts : (pos_part twice ≡ 2 * (n / 8)) × (neg_part twice ≡ 0) =
        (ap pos_part quarter, ap neg_part quarter) in
      let pm = a + n / 2 in
      let pn = a + (n - 1) in
      let l =
        med3_inside m a (a + n) a (forth a d) (forth a twice) (omega arith) (omega (arith, d_parts))
          (omega (arith, twice_parts)) in
      let c =
        med3_inside m a (a + n) (back pm d) pm (forth pm d) (omega (arith, d_parts)) (omega arith)
          (omega (arith, d_parts)) in
      let r =
        med3_inside m a (a + n) (back pn twice) (back pn d) pn (omega (arith, twice_parts))
          (omega (arith, d_parts)) (omega arith) in
      elim (Bool-cases (ltb 7 n)) [
        | inl e ↦ rw e (elim (Bool-cases (ltb 40 n)) [
          | inl e' ↦ rw e' (med3_inside m a (a + n) _ _ _ l c r)
          | inr e' ↦
              rw e' (med3_inside m a (a + n) a pm pn (omega arith) (omega arith) (omega arith))
        ])
        | inr e ↦ rw e (omega arith)
      ]

-- The variables before the loops.
abbrev pub first_cut : {E : Type 0} → (ℕ → E) → ℕ → ℕ → Cut E
first_cut m a n = record {
  mem = m;
  pa = a + 1;
  pb = a + 1;
  pc = a + (n - 1);
  pd = a + (n - 1);
  swapped = false;
}

module _ {E : Type 0} (key : E → ℕ) where
  pub first_cut-Parted :
      (m : ℕ → E) (a n : ℕ) → 7 ≤ n → Parted key (key (m a)) a n (first_cut m a n)
  first_cut-Parted m a n big = record {
    pa_low = omega arith;
    pa_pb = omega arith;
    pb_pc = omega arith;
    pc_pd = omega arith;
    pd_high = omega arith;
    equal_left = λ k p q. ap (λ z. key (m z)) (omega arith);
    smaller = λ k p q. absurd (omega arith);
    larger = λ k p q. absurd (omega arith);
    equal_right = λ k p q. absurd (omega arith);
  }

  -- Exchanges of neighbours that are out of order stay on their side of the pivot.
  pub Calm-Thirds :
      (v a n nl nr : ℕ) (m m' : ℕ → E)
      → Calm key a (a + n) m m'
      → Thirds key v a n nl nr m
      → Thirds key v a n nl nr m'
  unfolding swap
  Calm-Thirds v a n nl nr m m' calm t = t
  Calm-Thirds v a n nl nr m m' (calmer i j e p q less r) t =
      Calm-Thirds v a n nl nr (swap m j i) m' r (record {
        fewer = t.fewer;
        low = λ k x y.
            ground (
              arith,
              t.low k,
              t.low i,
              t.low j,
              t.middle i,
              t.middle j,
              t.high i,
              t.high j,
              t.fewer,
            );
        middle = λ k x y. ground (
          arith,
          t.middle k,
          t.low i,
          t.low j,
          t.middle i,
          t.middle j,
          t.high i,
          t.high j,
          t.fewer,
        );
        high = λ k x y. ground (
          arith,
          t.high k,
          t.low i,
          t.low j,
          t.middle i,
          t.middle j,
          t.high i,
          t.high j,
          t.fewer,
        );
      })
