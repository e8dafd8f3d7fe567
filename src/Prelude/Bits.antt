-- ===== src/Prelude/Bits.antt =====
-- `&` at variables: its law for the lowest digit, powers of two, and the masks that clear low bits.
use Prim.Native.Nat.{
  ℕ, zero, suc, ◌+◌, ◌-◌, ◌*◌, ◌/◌, ◌%◌, ◌^◌, ◌≤◌, ◌<◌, min, bit_and, digits, bit_and-bitwise,
}
use mathlib.Core.Path.{◌≡◌, refl, ap, ◌∙◌, sym}
use native.Mathlib.Nat.{two-pow-succ, pow-le-pow_right, div-div-eq-div-mul}
use native.Mathlib.Decide.{ℕ_discrete}
use native.Mathlib.Omega.{arith}

-- `&` with a count of digits to go, of which there may be more than the number has.
abbrev low_digits : ℕ → ℕ → ℕ → ℕ
low_digits = digits (λ _. 0) min

low_digits-enough : (n m x y : ℕ) → x ≤ n → x ≤ m → low_digits n x y ≡ low_digits m x y
low_digits-enough zero zero x y hn hm = refl
low_digits-enough zero (suc m) zero y hn hm = refl
low_digits-enough zero (suc m) (suc x) y hn hm = absurd (omega arith)
low_digits-enough (suc n) zero zero y hn hm = refl
low_digits-enough (suc n) zero (suc x) y hn hm = absurd (omega arith)
low_digits-enough (suc n) (suc m) zero y hn hm = refl
low_digits-enough (suc n) (suc m) (suc x) y hn hm =
    let rest = low_digits-enough n m (suc x / 2) (y / 2) (omega arith) (omega arith) in omega arith

pub bit_and_digit : (x y : ℕ) → bit_and x y ≡ bit_and (x / 2) (y / 2) * 2 + min (x % 2) (y % 2)
bit_and_digit zero y = omega (arith, bit_and-bitwise 0 y, bit_and-bitwise 0 (y / 2))
bit_and_digit (suc x) y =
    let half = low_digits-enough x (suc x / 2) (suc x / 2) (y / 2) (omega arith) (omega arith) in
    omega (arith, bit_and-bitwise (suc x) y, bit_and-bitwise (suc x / 2) (y / 2))

bit_and-self_below : (n x : ℕ) → x ≤ n → bit_and x x ≡ x
bit_and-self_below n zero h = refl
bit_and-self_below zero (suc x) h = absurd (omega arith)
bit_and-self_below (suc n) (suc x) h =
    omega (arith, bit_and_digit (suc x) (suc x), bit_and-self_below n (suc x / 2) (omega arith))

pub bit_and_self : (x : ℕ) → bit_and x x ≡ x
bit_and_self x = bit_and-self_below x x (omega arith)

-- A positive number with no bit in common with its predecessor is a power of two.
power_below : (n x : ℕ) → x ≤ n → 0 < x → bit_and x (x - 1) ≡ 0 → (k : ℕ) × (x ≡ 2 ^ k)
power_below zero x h pos e = absurd (omega arith)
power_below (suc n) x h pos e = elim (ℕ_discrete (x % 2) 0) [
  | yes even ↦
      let step = bit_and_digit x (x - 1) in
      let halved : (x - 1) / 2 ≡ x / 2 - 1 = omega arith in
      let (k, p) =
        power_below n (x / 2) (omega arith) (omega arith)
          (sym (ap (bit_and (x / 2)) halved) ∙ omega arith) in
      (suc k, omega (arith, two-pow-succ k))
  | no odd ↦
      let step = bit_and_digit x (x - 1) in
      let halved : (x - 1) / 2 ≡ x / 2 = omega arith in
      (0, omega (arith, ap (bit_and (x / 2)) halved, bit_and_self (x / 2)))
]

pub power_of_two : (x : ℕ) → 0 < x → bit_and x (x - 1) ≡ 0 → (k : ℕ) × (x ≡ 2 ^ k)
power_of_two x = power_below x x (omega arith)

two-pow-pos : (w : ℕ) → 0 < 2 ^ w
two-pow-pos zero = omega arith
two-pow-pos (suc w) = omega (arith, two-pow-succ w, two-pow-pos w)

bit_and_ones : (w x : ℕ) → x < 2 ^ w → bit_and x (2 ^ w - 1) ≡ x
bit_and_ones zero x h =
    omega (arith, ap (λ (y : ℕ). bit_and y 0) {x = x} {y = 0} (omega arith), bit_and-bitwise 0 0)
bit_and_ones (suc w) x h =
    let half : (2 ^ suc w - 1) / 2 ≡ 2 ^ w - 1 = omega (arith, two-pow-succ w, two-pow-pos w) in
    omega (
      arith,
      two-pow-succ w,
      two-pow-pos w,
      bit_and_digit x (2 ^ suc w - 1),
      ap (bit_and (x / 2)) half,
      bit_and_ones w (x / 2) (omega (arith, two-pow-succ w)),
    )

-- A mask of `w` bits that clears the lowest `k`.
pub bit_and_clear :
    (w k x : ℕ) → x < 2 ^ (k + w) → bit_and x (2 ^ (k + w) - 2 ^ k) ≡ x / 2 ^ k * 2 ^ k
bit_and_clear w zero x h = omega (arith, bit_and_ones (0 + w) x h)
bit_and_clear w (suc k) x h =
    let doubled : 2 ^ (suc k + w) ≡ 2 ^ (k + w) + 2 ^ (k + w) =
      ap (λ (e : ℕ). 2 ^ e) {x = suc k + w} {y = suc (k + w)} (omega arith)
      ∙ two-pow-succ (k + w) in
    let fits : 2 ^ k ≤ 2 ^ (k + w) =
      pow-le-pow_right {n = 2} (omega arith) {i = k} {j = k + w} (omega arith) in
    let half : (2 ^ (suc k + w) - 2 ^ suc k) / 2 ≡ 2 ^ (k + w) - 2 ^ k =
      omega (arith, doubled, two-pow-succ k) in
    let quotient : x / 2 / 2 ^ k ≡ x / 2 ^ suc k =
      div-div-eq-div-mul x 2 (2 ^ k) ∙ ap (λ (m : ℕ). x / m) (omega (arith, two-pow-succ k)) in
    omega (
      arith,
      doubled,
      two-pow-succ k,
      bit_and_digit x (2 ^ (suc k + w) - 2 ^ suc k),
      ap (bit_and (x / 2)) half,
      bit_and_clear w k (x / 2) (omega (arith, doubled)),
      ap (λ (m : ℕ). m * 2 ^ k) quotient,
      ap (λ (m : ℕ). x / 2 ^ suc k * m) (two-pow-succ k),
    )

-- A number is known by the bits of a low mask and by what is above them.
pub bit_and_low-injective :
    (k x y : ℕ) → x / 2 ^ k ≡ y / 2 ^ k → bit_and x (2 ^ k - 1) ≡ bit_and y (2 ^ k - 1) → x ≡ y
bit_and_low-injective zero x y e f = omega (arith, e)
bit_and_low-injective (suc k) x y e f =
    let double = two-pow-succ k in
    let above : (z : ℕ) → z / 2 / 2 ^ k ≡ z / 2 ^ suc k =
      λ z. div-div-eq-div-mul z 2 (2 ^ k) ∙ ap (λ (w : ℕ). z / w) (omega (arith, double)) in
    let half : (2 ^ suc k - 1) / 2 ≡ 2 ^ k - 1 = omega (arith, double, two-pow-pos k) in
    let digit : (z : ℕ) → bit_and z (2 ^ suc k - 1) ≡ bit_and (z / 2) (2 ^ k - 1) * 2 + z % 2 = λ z.
      omega (
        arith,
        double,
        two-pow-pos k,
        bit_and_digit z (2 ^ suc k - 1),
        ap (bit_and (z / 2)) half,
      ) in
    let halves : x / 2 ≡ y / 2 =
      bit_and_low-injective k (x / 2) (y / 2) (above x ∙ e ∙ sym (above y))
        (omega (arith, f, digit x, digit y)) in
    omega (arith, f, digit x, digit y, halves)
