-- ===== src/Qsort/Gather.antt =====
-- The equal elements are brought to the middle.
use linux_summer.Prelude.{ℕ, ◌+◌, ◌-◌, ◌≤◌, ◌<◌, ◌≡◌, sym, ap₂, subst, ◌⊎◌, inl, inr, dec_lt, arith}
use linux_summer.Qsort.{Cut, min, vec_swap, swap_ends, gather}
use linux_summer.Qsort.Fits.{Fits, count-Fits}
use linux_summer.Qsort.Shuffle.{Shuffle, trans}
use linux_summer.Qsort.Exchange.{
  vec_swap-Shuffle, vec_swap_outside, vec_swap_first, vec_swap_second,
}
use linux_summer.Qsort.Scan.{Parted}

module _ {E : Type 0} (P Q : E → Type 0) (m : ℕ → E) (lo x hi : ℕ) (below : lo ≤ x) (above : x ≤ hi)
    (ps : (k : ℕ) → lo ≤ k → k < x → P (m k)) (qs : (k : ℕ) → x ≤ k → k < hi → Q (m k)) where
  abbrev r : ℕ
  r = min (x - lo) (hi - x)

  r_least : (r ≤ x - lo) × (r ≤ hi - x) × ((r ≡ x - lo) ⊎ (r ≡ hi - x))
  r_least = (ground arith, ground arith, ground arith)

  abbrev m' : ℕ → E
  m' = vec_swap r lo (hi - r) m

  -- Two blocks change places, up to the order in the longer one.
  pub turned_low : (k : ℕ) → lo ≤ k → k < lo + (hi - x) → Q (m' k)
  turned_low k p q = elim (dec_lt k (lo + r)) [
    | yes lt ↦
        subst Q (sym (vec_swap_first r lo (hi - r) m k (omega (arith, r_least)) p lt))
          (qs (hi - r + (k - lo)) (omega (arith, r_least)) (omega (arith, r_least)))
    | no ge ↦
        subst Q
          (sym (
            vec_swap_outside r lo (hi - r) m k (inr (omega (arith, ge)))
              (inl (omega (arith, r_least, ge)))))
          (qs k (omega (arith, r_least, ge)) (omega (arith, q)))
  ]

  pub turned_high : (k : ℕ) → lo + (hi - x) ≤ k → k < hi → P (m' k)
  turned_high k p q = elim (dec_lt k (hi - r)) [
    | yes lt ↦
        subst P
          (sym (vec_swap_outside r lo (hi - r) m k (inr (omega (arith, r_least, lt))) (inl lt)))
          (ps k (omega (arith, p)) (omega (arith, r_least, lt)))
    | no ge ↦
        subst P
          (sym (
            vec_swap_second r lo (hi - r) m k (omega (arith, r_least)) (omega (arith, ge))
              (omega (arith, r_least))))
          (ps (lo + (k - (hi - r))) (omega arith) (omega (arith, r_least, ge)))
  ]

-- `nl` elements below `v`, then those equal to it, then `nr` above it.
pub record Thirds {E : Type 0} (key : E → ℕ) (v a n nl nr : ℕ) (m : ℕ → E) : Type 0 where
  pub fewer : nl + nr < n
  pub low : (k : ℕ) → a ≤ k → k < a + nl → key (m k) < v
  pub middle : (k : ℕ) → a + nl ≤ k → k < a + n - nr → key (m k) ≡ v
  pub high : (k : ℕ) → a + n - nr ≤ k → k < a + n → v < key (m k)

module _ {E : Type 0} (key : E → ℕ) (v a n : ℕ) (c : Cut E) (h : Parted key v a n c)
    (whole : c.pc < c.pb) where
  abbrev halfway : ℕ → E
  halfway = vec_swap (min (c.pa - a) (c.pb - c.pa)) a (c.pb - min (c.pa - a) (c.pb - c.pa)) c.mem

  min_least : (i j : ℕ) → (min i j ≤ i) × (min i j ≤ j)
  min_least i j = (ground arith, ground arith)

  halfway_same : (k : ℕ) → c.pb ≤ k → halfway k ≡ c.mem k
  halfway_same k p =
      vec_swap_outside (min (c.pa - a) (c.pb - c.pa)) a (c.pb - min (c.pa - a) (c.pb - c.pa)) c.mem
        k (inr (omega (arith, min_least (c.pa - a) (c.pb - c.pa), p, h.pa_pb, h.pa_low)))
        (inr (omega (arith, min_least (c.pa - a) (c.pb - c.pa), p)))

  abbrev final : ℕ → E
  final =
      vec_swap (min (c.pd - c.pc) (a + n - c.pd - 1)) c.pb
        (a + n - min (c.pd - c.pc) (a + n - c.pd - 1)) halfway

  final_same : (k : ℕ) → k < c.pb → final k ≡ halfway k
  final_same k p =
      vec_swap_outside (min (c.pd - c.pc) (a + n - c.pd - 1)) c.pb
        (a + n - min (c.pd - c.pc) (a + n - c.pd - 1)) halfway k (inl p)
        (inl (omega (arith, min_least (c.pd - c.pc) (a + n - c.pd - 1), p, h)))

  low_halfway : (k : ℕ) → a ≤ k → k < a + (c.pb - c.pa) → key (halfway k) < v
  low_halfway =
      turned_low (λ x. key x ≡ v) (λ x. key x < v) c.mem a c.pa c.pb (omega (arith, h)) h.pa_pb
        h.equal_left h.smaller

  middle_halfway : (k : ℕ) → a + (c.pb - c.pa) ≤ k → k < c.pb → key (halfway k) ≡ v
  middle_halfway =
      turned_high (λ x. key x ≡ v) (λ x. key x < v) c.mem a c.pa c.pb (omega (arith, h)) h.pa_pb
        h.equal_left h.smaller

  upper_larger : (k : ℕ) → c.pb ≤ k → k < c.pd + 1 → v < key (halfway k)
  upper_larger k p q =
      subst (λ z. v < key z) (sym (halfway_same k p))
        (h.larger k (omega (arith, whole)) (omega arith))

  upper_equal : (k : ℕ) → c.pd + 1 ≤ k → k < a + n → key (halfway k) ≡ v
  upper_equal k p q =
      subst (λ z. key z ≡ v) (sym (halfway_same k (omega (arith, h))))
        (h.equal_right k (omega arith) q)

  size_eq : min (c.pd + 1 - c.pb) (a + n - (c.pd + 1)) ≡ min (c.pd - c.pc) (a + n - c.pd - 1)
  size_eq =
      ap₂ min {x = c.pd + 1 - c.pb} {y = c.pd - c.pc} {u = a + n - (c.pd + 1)}
        {v = a + n - c.pd - 1} (omega (arith, h, whole)) (omega arith)

  middle_final : (k : ℕ) → c.pb ≤ k → k < c.pb + (a + n - (c.pd + 1)) → key (final k) ≡ v
  middle_final k p q =
      subst (λ z. key (vec_swap z c.pb (a + n - z) halfway k) ≡ v) size_eq
        (turned_low (λ x. v < key x) (λ x. key x ≡ v) halfway c.pb (c.pd + 1) (a + n)
          (omega (arith, h, whole)) (omega (arith, h)) upper_larger upper_equal k p q)

  high_final : (k : ℕ) → c.pb + (a + n - (c.pd + 1)) ≤ k → k < a + n → v < key (final k)
  high_final k p q =
      subst (λ z. v < key (vec_swap z c.pb (a + n - z) halfway k)) size_eq
        (turned_high (λ x. v < key x) (λ x. key x ≡ v) halfway c.pb (c.pd + 1) (a + n)
          (omega (arith, h, whole)) (omega (arith, h)) upper_larger upper_equal k p q)

  abbrev gathered : ℕ → E
  gathered = swap_ends c a n (min (c.pa - a) (c.pb - c.pa)) (min (c.pd - c.pc) (a + n - c.pd - 1))

  gathered-Thirds : Thirds key v a n (c.pb - c.pa) (c.pd - c.pc) gathered
  unfolding swap_ends
  gathered-Thirds = record {
    fewer = omega (arith, h, whole);
    low =
        λ k p q. subst (λ z. key z < v) (sym (final_same k (omega (arith, h)))) (low_halfway k p q);
    middle = λ k p q. elim (dec_lt k c.pb) [
      | yes lt ↦ subst (λ z. key z ≡ v) (sym (final_same k lt)) (middle_halfway k p lt)
      | no ge ↦ middle_final k (omega (arith, ge)) (omega (arith, h, whole))
    ];
    high = λ k p q. high_final k (omega (arith, h, whole)) q;
  }

  gathered-Shuffle : Shuffle a (a + n) c.mem gathered
  unfolding swap_ends
  gathered-Shuffle =
      let r = min_least (c.pa - a) (c.pb - c.pa) in
      let s = min_least (c.pd - c.pc) (a + n - c.pd - 1) in
      trans {m' = halfway}
        (vec_swap-Shuffle (min (c.pa - a) (c.pb - c.pa)) a (c.pb - min (c.pa - a) (c.pb - c.pa)) a
          (a + n) c.mem (omega arith) (omega (arith, r, h)) (omega (arith, r, h))
          (omega (arith, r, h)))
        (vec_swap-Shuffle (min (c.pd - c.pc) (a + n - c.pd - 1)) c.pb
          (a + n - min (c.pd - c.pc) (a + n - c.pd - 1)) a (a + n) halfway (omega (arith, h))
          (omega (arith, s, h, whole)) (omega (arith, s, h, whole)) (omega (arith, s, h)))

  -- With byte counts that fit, all the equal elements are moved.
  gather-gathered : (es : ℕ) → Fits es n → gather es c a n ≡ gathered
  unfolding gather
  gather-gathered es fits =
      ap₂ (swap_ends c a n)
        (count-Fits es (min (c.pa - a) (c.pb - c.pa)) n
          (omega (arith, min_least (c.pa - a) (c.pb - c.pa), h)) fits)
        (count-Fits es (min (c.pd - c.pc) (a + n - c.pd - 1)) n
          (omega (arith, min_least (c.pd - c.pc) (a + n - c.pd - 1), h)) fits)

  pub gather-Thirds :
      (es : ℕ) → Fits es n → Thirds key v a n (c.pb - c.pa) (c.pd - c.pc) (gather es c a n)
  gather-Thirds es fits =
      subst (Thirds key v a n (c.pb - c.pa) (c.pd - c.pc)) (sym (gather-gathered es fits))
        gathered-Thirds

  pub gather-Shuffle : (es : ℕ) → Fits es n → Shuffle a (a + n) c.mem (gather es c a n)
  gather-Shuffle es fits =
      subst (Shuffle a (a + n) c.mem) (sym (gather-gathered es fits)) gathered-Shuffle
