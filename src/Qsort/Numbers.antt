-- ===== src/Qsort/Numbers.antt =====
-- `num_compare` of hw1/qsort-mt.c and hw3/work-steal-qsort/src/main.c, for ELEM_T = uint32_t: the
-- difference modulo 2 ^ 32, read as an int.
use linux_summer.Prelude.{ℕ, ◌+◌, ◌-◌, ◌%◌, ◌^◌, ◌<◌, ◌≡◌, ltb, if◌then◌else◌, true, arith}
use linux_summer.Prelude.Int.{ℤ, pos, negsuc, is_neg, is_pos}
use linux_summer.Qsort.Order.{Compares}

unfoldable pub num_compare : ℕ → ℕ → ℤ
num_compare a b =
    let bits = (a + 2 ^ 32 - b) % 2 ^ 32 in
    if ltb bits (2 ^ 31) then pos bits else negsuc (2 ^ 32 - 1 - bits)

-- For numbers less than 2 ^ 31 apart the sign of num_compare is the order of the numbers.
pub num_compare-near :
    (a b : ℕ)
    → a < 2 ^ 32
    → b < 2 ^ 32
    → a < b + 2 ^ 31
    → b < a + 2 ^ 31
    → (is_neg (num_compare a b) ≡ ltb a b) × (is_pos (num_compare a b) ≡ ltb b a)
unfolding num_compare
num_compare-near a b ha hb near near' = ground arith

-- If `a` is more than 2 ^ 31 above `b`, num_compare has it the other way round.
pub num_compare-far :
    (a b : ℕ)
    → a < 2 ^ 32
    → b + 2 ^ 31 < a
    → (is_neg (num_compare a b) ≡ true) × (is_pos (num_compare b a) ≡ true)
unfolding num_compare
num_compare-far a b ha far = ground arith

-- the elements for which `num_compare` compares by their values
pub record Number : Type 0 where
  pub value : ℕ
  pub small : value < 2 ^ 31

abbrev pub compare_numbers : Number → Number → ℤ
compare_numbers x y = num_compare x.value y.value

pub num_compare-Compares : Compares compare_numbers (λ x. x.value)
num_compare-Compares = record {
  less = λ x y.
      (num_compare-near x.value y.value (omega (arith, x.small)) (omega (arith, y.small))
        (omega (arith, x.small)) (omega (arith, y.small))).0;
  more = λ x y.
      (num_compare-near x.value y.value (omega (arith, x.small)) (omega (arith, y.small))
        (omega (arith, x.small)) (omega (arith, y.small))).1;
}
