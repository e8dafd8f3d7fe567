-- ===== src/Qsort/Fits.antt =====
-- Byte counts that fit an `int`.
use native.Mathlib.Nat.{mul-le-mul_right, mul-div_cancel}
use linux_summer.Prelude.{
  ℕ, ◌-◌, ◌*◌, ◌/◌, ◌%◌, ◌^◌, ◌≤◌, ◌<◌, ◌≡◌, refl, true, ap, ◌∙◌, ltb, if◌then◌else◌, arith,
}
use linux_summer.Prelude.Int.{pos, ◌-ℤ◌, pos_part}
use linux_summer.Qsort.{int_elements}

-- An array of `n` elements has fewer than 2 ^ 31 bytes.
abbrev pub Fits : ℕ → ℕ → Type 0
Fits es n = (0 < es) × (n * es < 2 ^ 31)

pub Fits-le : (es k n : ℕ) → k ≤ n → Fits es n → Fits es k
Fits-le es k n le (some_bytes, small) = (some_bytes, omega (arith, mul-le-mul_right es le))

-- An `int` that is given a small number has it.
in_bits :
    (bits es : ℕ)
    → bits < 2 ^ 31
    → (let b = bits % 2 ^ 32 in
        if ltb b (2 ^ 31) then pos (b / es) else pos 0 -ℤ pos ((2 ^ 32 - b) / es))
      ≡ pos (bits / es)
in_bits bits es small =
    let same : bits % 2 ^ 32 ≡ bits = omega arith in
    let test : ltb bits (2 ^ 31) ≡ true = ground arith in rw same (rw test refl)

pub int_elements-Fits : (es k : ℕ) → Fits es k → int_elements es k ≡ pos k
unfolding int_elements
int_elements-Fits es k (some_bytes, small) =
    in_bits (k * es) es small ∙ ap pos (mul-div_cancel k some_bytes)

-- The number of elements itself, whatever they need.
pub count-Fits : (es k n : ℕ) → k ≤ n → Fits es n → pos_part (int_elements es k) ≡ k
count-Fits es k n le fits = ap pos_part (int_elements-Fits es k (Fits-le es k n le fits))
