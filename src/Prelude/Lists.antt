-- ===== src/Prelude/Lists.antt =====
-- Lists measured by native numbers, under the library's names.
use Prim.Native.Nat.{ℕ, suc, ◌+◌}
use mathlib.Core.Bool.{Bool, true, false}
use mathlib.Core.Path.{◌≡◌, refl}
use mathlib.Core.List.{List, [], ◌∷◌, ◌++◌}
use native.Mathlib.Omega.{arith}
use linux_summer.Prelude.Tests.{◌==◌}

module _ {ℓ} {A : Type ℓ} where
  abbrev pub length : List A → ℕ
  length [] = 0
  length (x ∷ xs) = suc (length xs)

  pub length-append : (xs ys : List A) → length (xs ++ ys) ≡ length xs + length ys
  length-append [] ys = omega arith
  length-append (x ∷ xs) ys = omega (arith, length-append xs ys)

abbrev pub one_if : Bool → ℕ
one_if true = 1
one_if false = 0

-- the number of times that `w` is in a list
abbrev pub count : ℕ → List ℕ → ℕ
count w [] = 0
count w (v ∷ rest) = one_if (v == w) + count w rest

pub count-append :
    (w : ℕ) (front back : List ℕ) → count w (front ++ back) ≡ count w front + count w back
count-append w [] back = omega arith
count-append w (v ∷ rest) back = omega (arith, count-append w rest back)

-- what the members of a list weigh
abbrev pub tally {ℓ} : {A : Type ℓ} → (A → ℕ) → List A → ℕ
tally W [] = 0
tally W (k ∷ ks) = W k + tally W ks

pub tally-append {ℓ} :
    {A : Type ℓ} (W : A → ℕ) (ks ls : List A) → tally W (ks ++ ls) ≡ tally W ks + tally W ls
tally-append W [] ls = omega arith
tally-append W (k ∷ ks) ls = omega (arith, tally-append W ks ls)

abbrev pub one : ℕ → ℕ
one k = 1

-- A list that weighs nothing by number weighs nothing by any weight.
pub tally_zero : (W : ℕ → ℕ) (ks : List ℕ) → tally one ks ≡ 0 → tally W ks ≡ 0
tally_zero W [] e = refl
tally_zero W (k ∷ ks) e = absurd (omega (arith, e))

-- `count`, as a weight
abbrev pub times : ℕ → List ℕ → ℕ
times k = tally (λ v. one_if (v == k))
