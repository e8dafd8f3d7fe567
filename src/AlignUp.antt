-- ===== src/AlignUp.antt =====
-- hw1/align_up.c: rounding an address up to a multiple of an alignment, on 64-bit words.
mod Tests
use Prim.Native.Nat.{bit_and}
use native.Mathlib.Nat.{div-add-mod', mod-lt, mul-mod_left, pow-le-pow_right}
use linux_summer.Prelude.{
  ℕ, suc, ◌+◌, ◌-◌, ◌*◌, ◌/◌, ◌%◌, ◌^◌, ◌≤◌, ◌<◌, ◌≡◌, refl, sym, ap, ◌∙◌, arith, if◌then◌else◌,
  ◌==◌, Bool-cases, inl, inr, true, false, dec_lt,
}
use linux_summer.Prelude.Mod.{add_size, sub_size}
use linux_summer.Prelude.Bits.{power_of_two, bit_and_clear}

-- `~x` on `uintptr_t`
abbrev pub complement : ℕ → ℕ
complement x = 2 ^ 64 - 1 - x

pub align_up : ℕ → ℕ → ℕ
align_up sz alignment =
    let mask = sub_size alignment 1 in
    if bit_and alignment mask == 0
    then bit_and (add_size sz mask) (complement mask)
    else add_size sz mask / alignment * alignment % 2 ^ 64

exponent_small : (k : ℕ) → 2 ^ k < 2 ^ 64 → k < 64
exponent_small k h = elim (dec_lt k 64) [
  | yes p ↦ p
  | no p ↦
      absurd (omega (arith, pow-le-pow_right {n = 2} (omega arith) {i = 64} {j = k} (omega arith)))
]

-- Clearing the low bits of a number rounds it down to a multiple of the power of two.
clear_is_round_down :
    (x a : ℕ)
    → 0 < a
    → a < 2 ^ 64
    → x < 2 ^ 64
    → bit_and a (a - 1) ≡ 0
    → bit_and x (complement (a - 1)) ≡ x / a * a
clear_is_round_down x a pos small fits e =
    let (k, p) = power_of_two a pos e in
    let short : k < 64 = exponent_small k (omega arith) in
    let all : k + (64 - k) ≡ 64 = omega arith in
    let whole : 2 ^ (k + (64 - k)) ≡ 2 ^ 64 = ap (λ (i : ℕ). 2 ^ i) all in
    ap (bit_and x) {x = complement (a - 1)} {y = 2 ^ (k + (64 - k)) - 2 ^ k} (omega arith)
    ∙ bit_and_clear (64 - k) k x (omega arith)
    ∙ ap (λ (m : ℕ). x / m * m) (sym p)

-- For an alignment that is not zero, and a size that the addition does not carry past 2^64, the
-- mask for powers of two and the division for other alignments compute the same function.
pub align_up-eq :
    (sz alignment : ℕ)
    → 0 < alignment
    → alignment < 2 ^ 64
    → sz + alignment ≤ 2 ^ 64
    → align_up sz alignment ≡ (sz + (alignment - 1)) / alignment * alignment
unfolding align_up
align_up-eq sz a pos word fits = ground (
  arith,
  mask,
  sum,
  clear_is_round_down (sz + (a - 1)) a pos word (omega arith),
  div-add-mod' (sz + (a - 1)) a,
)
  where
    mask : sub_size a 1 ≡ a - 1
    mask = omega arith

    sum : add_size sz (a - 1) ≡ sz + (a - 1)
    sum = omega arith

-- For such an alignment and size, the result is the multiple of the alignment that lies at most
-- `alignment - 1` above the size.
pub align_up_lem :
    (sz alignment : ℕ)
    → 0 < alignment
    → alignment < 2 ^ 64
    → sz + alignment ≤ 2 ^ 64
    → (align_up sz alignment % alignment ≡ 0)
      × (sz ≤ align_up sz alignment)
      × (align_up sz alignment < sz + alignment)
align_up_lem sz a pos word fits =
    let e = align_up-eq sz a pos word fits in
    let x = sz + (a - 1) in
    (
      ap (λ (m : ℕ). m % a) e ∙ mul-mod_left (x / a) a,
      omega (arith, e, div-add-mod' x a, mod-lt x pos),
      omega (arith, e, div-add-mod' x a, mod-lt x pos),
    )
