-- ===== src/Qsort/Partition.antt =====
-- The partition ends, and leaves the array parted with nothing unknown.
use linux_summer.Prelude.{
  ℕ, zero, suc, ◌+◌, ◌-◌, ◌≤◌, ◌<◌, ◌≡◌, ap, true, Bool-cases, ℕ_discrete, inl, inr, ltb, some,
  arith,
}
use linux_summer.Prelude.Int.{ℤ}
use linux_summer.Qsort.{swap, Cut, scan_up, scan_down, partition}
use linux_summer.Qsort.Shuffle.{Shuffle, one, trans}
use linux_summer.Qsort.Order.{Compares}
use linux_summer.Qsort.Scan.{Parted}
use linux_summer.Qsort.Loops.{scan_up-Up, scan_down-Down}

-- `cross c` is the body of the `for (;;)` after the two loops.
pub cross : {E : Type 0} → Cut E → Cut E
cross d = record d { mem = swap d.mem d.pb d.pc; pb = d.pb + 1; pc = d.pc - 1; swapped = true }

module _ {E : Type 0} (cmp : E → E → ℤ) (key : E → ℕ) (laws : Compares cmp key) (v a n : ℕ) where
  cross-Parted :
      (d : Cut E)
      → Parted key v a n d
      → d.pb < d.pc
      → v < key (d.mem d.pb)
      → key (d.mem d.pc) < v
      → Parted key v a n (cross d)
  unfolding cross swap
  cross-Parted d h apart high low = record {
    pa_low = h.pa_low;
    pa_pb = omega (arith, h);
    pb_pc = omega (arith, h);
    pc_pd = omega (arith, h);
    pd_high = h.pd_high;
    equal_left = λ k p q. ground (arith, h.equal_left k, h.pa_pb);
    smaller = λ k p q. ground (arith, h.smaller k);
    larger = λ k p q. ground (arith, h.larger k);
    equal_right = λ k p q. ground (arith, h.equal_right k, h.pc_pd);
  }

  pub record Halves (fuel : ℕ) (c : Cut E) : Type 0 where
    pub cut : Cut E
    pub run : partition cmp fuel n c a ≡ some cut
    pub parted : Parted key v a n cut
    pub whole : cut.pc < cut.pb
    pub shuffle : Shuffle a (a + n) c.mem cut.mem

  pub partition-Halves :
      (fuel : ℕ) (c : Cut E) → Parted key v a n c → c.pc + 2 ≤ c.pb + fuel → Halves fuel c
  unfolding partition cross
  partition-Halves zero c h enough = absurd (omega (arith, h.pb_pc))
  partition-Halves (suc fuel) c h enough =
      let u = scan_up-Up cmp key laws v a n n c h (omega (arith, h)) in
      let c₁ = scan_up cmp n c a in
      let w = scan_down-Down cmp key laws v a n n c₁ u.parted (omega (arith, u.parted)) u.stop in
      let d = scan_down cmp n c₁ a in
      elim (Bool-cases (ltb d.pc d.pb)) [
        | inl t ↦ record {
          cut = d;
          run = ground (arith, t);
          parted = w.parted;
          whole = ground (arith, t);
          shuffle = trans u.shuffle w.shuffle;
        }
        | inr t ↦
            let le : d.pb ≤ d.pc = ground (arith, t) in
            let apart : d.pb < d.pc = elim (ℕ_discrete d.pb d.pc) [
              | yes e ↦ absurd (omega (arith, ap (λ z. key (d.mem z)) e, w.high le, w.stop le))
              | no ne ↦ omega (arith, le, ne)
            ] in
            let next =
              partition-Halves fuel (cross d)
                (cross-Parted d w.parted apart (w.high le) (w.stop le))
                (omega (arith, u.pc, u.pb, w.pb, w.pc)) in
            record {
              cut = next.cut;
              run = ground (arith, t, next.run);
              parted = next.parted;
              whole = next.whole;
              shuffle = trans u.shuffle (
                  trans w.shuffle (
                    trans
                      (one d.mem a (a + n) d.pb d.pc (omega (arith, w.parted))
                        (omega (arith, w.parted, le)) (omega (arith, w.parted, le))
                        (omega (arith, w.parted)))
                      next.shuffle));
            }
      ]
