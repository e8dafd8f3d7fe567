-- ===== src/Prelude/Mod.antt =====
-- Remainders: within one turn of a ring no slot comes twice. Words of 64 bits.
use Prim.Native.Nat.{ℕ, ◌+◌, ◌-◌, ◌%◌, ◌^◌, ◌<◌}
use mathlib.Core.Path.{◌≡◌, ap, sym, ◌∙◌}
use mathlib.Core.Logic.{◌≢◌}
use native.Mathlib.Nat.{mod-add-mod, mod-eq_of_lt, mod-eq-sub-mod}
use native.Mathlib.Decide.{dec_lt}
use native.Mathlib.Omega.{arith}

-- `a + b` and `a - b` on `size_t`
abbrev pub add_size : ℕ → ℕ → ℕ
add_size a b = (a + b) % 2 ^ 64

abbrev pub sub_size : ℕ → ℕ → ℕ
sub_size a b = (a + 2 ^ 64 - b) % 2 ^ 64

add-mod-ne : (m h k : ℕ) → h < m → 0 < k → k < m → (h + k) % m ≢ h
add-mod-ne m h k hh hp hk = elim (dec_lt (h + k) m) [
  | yes p ↦ omega (arith, mod-eq_of_lt p)
  | no p ↦ omega (
    arith,
    mod-eq-sub-mod {n = h + k} {m = m} (omega arith),
    mod-eq_of_lt {n = h + k - m} {m = m} (omega arith),
  )
]

-- Two indices less than a turn apart lie in different slots.
pub mod-ne_of_near : (m i j : ℕ) → i < j → j < i + m → i % m ≢ j % m
mod-ne_of_near m i j lt near e =
    add-mod-ne m (i % m) (j - i) (omega arith) (omega arith) (omega arith) shifted
  where
    shifted : (i % m + (j - i)) % m ≡ i % m
    shifted = mod-add-mod i m (j - i) ∙ ap (λ (t : ℕ). t % m) (omega arith) ∙ sym e
