-- ===== src/Qsort/Loops.antt =====
-- The partition's loops end, and leave the array parted.
use linux_summer.Prelude.{
  ℕ, zero, suc, ◌+◌, ◌-◌, ◌≤◌, ◌<◌, ◌≡◌, refl, sym, subst, ◌∙◌, Bool-cases, inl, inr, arith,
}
use linux_summer.Prelude.Int.{ℤ}
use linux_summer.Qsort.{swap, Cut, up_step, up_test, scan_up, down_step, down_test, scan_down}
use linux_summer.Qsort.Shuffle.{Shuffle, done, trans}
use linux_summer.Qsort.Order.{Compares}
use linux_summer.Qsort.Scan.{Parted, up_step-Parted, down_step-Parted, step-Shuffle}

module _ {E : Type 0} (cmp : E → E → ℤ) (key : E → ℕ) (laws : Compares cmp key) (v a n : ℕ) where
  -- The first `while` ends above the pivot or past the unknown part.
  pub record Up (c d : Cut E) : Type 0 where
    pub parted : Parted key v a n d
    pub shuffle : Shuffle a (a + n) c.mem d.mem
    pub pc : d.pc ≡ c.pc
    pub pb : c.pb ≤ d.pb
    pub stop : d.pb ≤ d.pc → v < key (d.mem d.pb)

  up_step_pointers : (c : Cut E) → ((up_step cmp c a).pc ≡ c.pc) × ((up_step cmp c a).pb ≡ c.pb + 1)
  unfolding up_step
  up_step_pointers c = (ground arith, ground arith)

  pub scan_up-Up :
      (fuel : ℕ) (c : Cut E)
      → Parted key v a n c
      → c.pc + 1 ≤ c.pb + fuel
      → Up c (scan_up cmp fuel c a)
  unfolding scan_up
  scan_up-Up zero c h enough = record {
    parted = h;
    shuffle = done;
    pc = refl;
    pb = omega arith;
    stop = λ le. absurd (omega arith);
  }
  scan_up-Up (suc fuel) c h enough =
      let at_a : key (c.mem a) ≡ v = h.equal_left a (omega arith) h.pa_low in
      let more = laws.more (c.mem c.pb) (c.mem a) in
      let (pc', pb') = up_step_pointers c in
      elim (Bool-cases (up_test cmp c a)) [
        | inl t ↦
            let inside : c.pb ≤ c.pc = ground (arith, t) in
            let u =
              scan_up-Up fuel (up_step cmp c a)
                (up_step-Parted cmp key laws v a n c h inside (ground (arith, t, more)))
                (omega arith) in
            rw (t, scan_up)
              (record {
                parted = u.parted;
                shuffle = trans (step-Shuffle cmp key laws v a n c h inside).0 u.shuffle;
                pc = u.pc ∙ pc';
                pb = omega (arith, u.pb);
                stop = u.stop;
              })
        | inr t ↦
            rw (t, scan_up)
              (record {
                parted = h;
                shuffle = done;
                pc = refl;
                pb = omega arith;
                stop = λ le. ground (arith, t, more);
              })
      ]

  -- The second `while`, where the element at `pb` is above the pivot.
  pub record Down (c d : Cut E) : Type 0 where
    pub parted : Parted key v a n d
    pub shuffle : Shuffle a (a + n) c.mem d.mem
    pub pb : d.pb ≡ c.pb
    pub pc : d.pc ≤ c.pc
    pub high : d.pb ≤ d.pc → v < key (d.mem d.pb)
    pub stop : d.pb ≤ d.pc → key (d.mem d.pc) < v

  down_step_pointers :
      (c : Cut E) → ((down_step cmp c a).pc ≡ c.pc - 1) × ((down_step cmp c a).pb ≡ c.pb)
  unfolding down_step
  down_step_pointers c = (ground arith, ground arith)

  down_step_high :
      (c : Cut E)
      → Parted key v a n c
      → c.pb ≤ c.pc - 1
      → v < key (c.mem c.pb)
      → v < key ((down_step cmp c a).mem c.pb)
  unfolding down_step swap
  down_step_high c h apart high = ground (arith, h.pa_low, h.pa_pb, h.pc_pd)

  pub scan_down-Down :
      (fuel : ℕ) (c : Cut E)
      → Parted key v a n c
      → c.pc + 1 ≤ c.pb + fuel
      → (c.pb ≤ c.pc → v < key (c.mem c.pb))
      → Down c (scan_down cmp fuel c a)
  unfolding scan_down
  scan_down-Down zero c h enough high = record {
    parted = h;
    shuffle = done;
    pb = refl;
    pc = omega arith;
    high = high;
    stop = λ le. absurd (omega arith);
  }
  scan_down-Down (suc fuel) c h enough high =
      let at_a : key (c.mem a) ≡ v = h.equal_left a (omega arith) h.pa_low in
      let less = laws.less (c.mem c.pc) (c.mem a) in
      let (pc', pb') = down_step_pointers c in
      let d = down_step cmp c a in
      elim (Bool-cases (down_test cmp c a)) [
        | inl t ↦
            let inside : c.pb ≤ c.pc = ground (arith, t) in
            let high' : d.pb ≤ d.pc → v < key (d.mem d.pb) = λ le.
              subst (λ z. v < key (d.mem z)) (sym pb')
                (down_step_high c h (omega arith) (high inside)) in
            let u =
              scan_down-Down fuel d
                (down_step-Parted cmp key laws v a n c h inside (ground (arith, t, less)))
                (omega (arith, h.pa_low, h.pa_pb)) high' in
            rw (t, scan_down)
              (record {
                parted = u.parted;
                shuffle = trans (step-Shuffle cmp key laws v a n c h inside).1 u.shuffle;
                pb = u.pb ∙ pb';
                pc = omega (arith, u.pc);
                high = u.high;
                stop = u.stop;
              })
        | inr t ↦
            rw (t, scan_down)
              (record {
                parted = h;
                shuffle = done;
                pb = refl;
                pc = omega arith;
                high = high;
                stop = λ le. ground (arith, t, less);
              })
      ]
