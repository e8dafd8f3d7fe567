-- ===== src/Qsort/Scan.antt =====
-- The bodies of the partition's loops: what holds of the four pointers.
use linux_summer.Prelude.{ℕ, ◌+◌, ◌≤◌, ◌<◌, ◌≡◌, Bool-cases, inl, inr, arith}
use linux_summer.Prelude.Int.{ℤ, is_zero}
use linux_summer.Qsort.{swap, Cut, up_step, down_step}
use linux_summer.Qsort.Shuffle.{Shuffle, done, one}
use linux_summer.Qsort.Order.{Compares, same_key}

-- With `v` the pivot's key: equal elements at both ends, smaller and larger ones inside them.
pub record Parted {E : Type 0} (key : E → ℕ) (v a n : ℕ) (c : Cut E) : Type 0 where
  pub pa_low : a < c.pa
  pub pa_pb : c.pa ≤ c.pb
  pub pb_pc : c.pb ≤ c.pc + 1
  pub pc_pd : c.pc ≤ c.pd
  pub pd_high : c.pd < a + n
  pub equal_left : (k : ℕ) → a ≤ k → k < c.pa → key (c.mem k) ≡ v
  pub smaller : (k : ℕ) → c.pa ≤ k → k < c.pb → key (c.mem k) < v
  pub larger : (k : ℕ) → c.pc < k → k ≤ c.pd → v < key (c.mem k)
  pub equal_right : (k : ℕ) → c.pd < k → k < a + n → key (c.mem k) ≡ v

module _ {E : Type 0} (cmp : E → E → ℤ) (key : E → ℕ) (laws : Compares cmp key) (v a n : ℕ) where
  pub up_step-Parted :
      (c : Cut E)
      → Parted key v a n c
      → c.pb ≤ c.pc
      → key (c.mem c.pb) ≤ v
      → Parted key v a n (up_step cmp c a)
  unfolding up_step swap
  up_step-Parted c h inside le =
      let at_a : key (c.mem a) ≡ v = h.equal_left a (omega arith) h.pa_low in
      let same = same_key cmp key laws (c.mem c.pb) (c.mem a) in
      elim (Bool-cases (is_zero (cmp (c.mem c.pb) (c.mem a)))) [
        | inl e ↦ rw e (record {
          pa_low = omega (arith, h);
          pa_pb = omega (arith, h);
          pb_pc = omega (arith, h);
          pc_pd = omega (arith, h);
          pd_high = omega (arith, h);
          equal_left = λ k p q. ground (arith, e, same, h.equal_left k, h.smaller c.pa);
          smaller = λ k p q. ground (arith, e, same, h.smaller k, h.smaller c.pa, h.pa_pb);
          larger = λ k p q. ground (arith, h.larger k, h.pa_pb);
          equal_right = λ k p q. ground (arith, h.equal_right k, h.pa_pb, h.pc_pd);
        })
        | inr e ↦ rw e (record {
          pa_low = h.pa_low;
          pa_pb = omega (arith, h);
          pb_pc = omega (arith, h);
          pc_pd = h.pc_pd;
          pd_high = h.pd_high;
          equal_left = h.equal_left;
          smaller = λ k p q. ground (arith, e, same, h.smaller k);
          larger = h.larger;
          equal_right = h.equal_right;
        })
      ]

  pub down_step-Parted :
      (c : Cut E)
      → Parted key v a n c
      → c.pb ≤ c.pc
      → v ≤ key (c.mem c.pc)
      → Parted key v a n (down_step cmp c a)
  unfolding down_step swap
  down_step-Parted c h inside le =
      let at_a : key (c.mem a) ≡ v = h.equal_left a (omega arith) h.pa_low in
      let same = same_key cmp key laws (c.mem c.pc) (c.mem a) in
      elim (Bool-cases (is_zero (cmp (c.mem c.pc) (c.mem a)))) [
        | inl e ↦ rw e (record {
          pa_low = h.pa_low;
          pa_pb = h.pa_pb;
          pb_pc = omega (arith, h);
          pc_pd = omega (arith, h);
          pd_high = omega (arith, h);
          equal_left = λ k p q. ground (arith, h.equal_left k, h.pa_pb, h.pc_pd);
          smaller = λ k p q. ground (arith, h.smaller k, h.pc_pd);
          larger = λ k p q.
              ground (arith, e, same, h.larger k, h.larger c.pd, h.pc_pd, h.pa_low, h.pa_pb);
          equal_right = λ k p q. ground (arith, e, same, h.equal_right k, h.larger c.pd, h.pc_pd);
        })
        | inr e ↦ rw e (record {
          pa_low = h.pa_low;
          pa_pb = h.pa_pb;
          pb_pc = omega (arith, h);
          pc_pd = omega (arith, h);
          pd_high = h.pd_high;
          equal_left = h.equal_left;
          smaller = h.smaller;
          larger = λ k p q. ground (arith, e, same, h.larger k, h.pa_low, h.pa_pb);
          equal_right = h.equal_right;
        })
      ]

  pub step-Shuffle :
      (c : Cut E)
      → Parted key v a n c
      → c.pb ≤ c.pc
      → Shuffle a (a + n) c.mem (up_step cmp c a).mem
        × Shuffle a (a + n) c.mem (down_step cmp c a).mem
  unfolding up_step down_step
  step-Shuffle c h inside = (
    elim (Bool-cases (is_zero (cmp (c.mem c.pb) (c.mem a)))) [
      | inl e ↦ rw e (
          one c.mem a (a + n) c.pa c.pb (omega (arith, h)) (omega (arith, h)) (omega (arith, h))
            (omega (arith, h)))
      | inr e ↦ rw e done
    ],
    elim (Bool-cases (is_zero (cmp (c.mem c.pc) (c.mem a)))) [
      | inl e ↦ rw e (
          one c.mem a (a + n) c.pc c.pd (omega (arith, h)) (omega (arith, h)) (omega (arith, h))
            (omega (arith, h)))
      | inr e ↦ rw e done
    ],
  )
