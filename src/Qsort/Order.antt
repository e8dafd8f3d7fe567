-- ===== src/Qsort/Order.antt =====
-- The order of the elements. `key` gives the place of an element in it.
use linux_summer.Prelude.{ℕ, ◌≤◌, ◌<◌, ◌≡◌, ltb, ◌==◌, arith}
use linux_summer.Prelude.Int.{ℤ, pos, negsuc, is_neg, is_pos, is_zero}

-- The comparison is one by keys.
pub record Compares {E : Type 0} (cmp : E → E → ℤ) (key : E → ℕ) : Type 0 where
  pub less : (x y : E) → is_neg (cmp x y) ≡ ltb (key x) (key y)
  pub more : (x y : E) → is_pos (cmp x y) ≡ ltb (key y) (key x)

is_zero_lem : (z : ℤ) (a b : ℕ) → is_neg z ≡ ltb a b → is_pos z ≡ ltb b a → is_zero z ≡ (a == b)
is_zero_lem (pos n) a b h h' = ground arith
is_zero_lem (negsuc n) a b h h' = ground arith

module _ {E : Type 0} (cmp : E → E → ℤ) (key : E → ℕ) (laws : Compares cmp key) where
  pub same_key : (x y : E) → is_zero (cmp x y) ≡ (key x == key y)
  same_key x y = is_zero_lem (cmp x y) (key x) (key y) (laws.less x y) (laws.more x y)

-- The elements from `lo` to before `hi` are in order.
abbrev pub Sorted : {E : Type 0} → (E → ℕ) → (ℕ → E) → ℕ → ℕ → Type 0
Sorted key m lo hi = (i j : ℕ) → lo ≤ i → i < j → j < hi → key (m i) ≤ key (m j)
