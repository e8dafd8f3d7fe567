-- ===== src/Prelude/Family.antt =====
-- Memory and families of threads as functions of an index: update at one index.
use Prim.Native.Nat.{ℕ, zero, suc, ◌+◌, ◌≤◌, ◌<◌}
use mathlib.Core.Path.{◌≡◌, refl, ap, sym, ◌∙◌, fun_ext}
use mathlib.Core.Logic.{◌≢◌}
use native.Mathlib.Omega.{arith}
use native.Mathlib.Decide.{ℕ_discrete}
use linux_summer.Prelude.Tests.{◌==◌, if◌then◌else◌}

module _ {ℓ} {A : Type ℓ} where
  abbrev pub update : (ℕ → A) → ℕ → A → ℕ → A
  update f i a j = if i == j then a else f j

  pub update-eq : (f : ℕ → A) (i j : ℕ) (a : A) → i ≡ j → update f i a j ≡ a
  update-eq f i j a e = ground arith

  pub update-ne : (f : ℕ → A) (i j : ℕ) (a : A) → i ≢ j → update f i a j ≡ f j
  update-ne f i j a e = ground arith

  -- Two updates at different indices, in either order.
  pub update_swap :
      (f : ℕ → A) (i j : ℕ) (a b : A)
      → i ≢ j
      → update (update f i a) j b ≡ update (update f j b) i a
  update_swap f i j a b ne = fun_ext (λ k. ground arith)

  -- The last of two updates at an index counts.
  pub update_twice : (f : ℕ → A) (i : ℕ) (a b : A) → update (update f i a) i b ≡ update f i b
  update_twice f i a b = fun_ext (λ k. ground arith)

  pub update_same : (f : ℕ → A) (i : ℕ) (a : A) → f i ≡ a → f ≡ update f i a
  update_same f i a e = fun_ext (λ k. elim (ℕ_discrete i k) [
    | yes q ↦ ap f (sym q) ∙ e ∙ sym (update-eq f i k a q)
    | no ne ↦ sym (update-ne f i k a ne)
  ])

  -- the sum of what the first `n` members weigh
  abbrev pub total : (A → ℕ) → (ℕ → A) → ℕ → ℕ
  total W f zero = 0
  total W f (suc n) = total W f n + W (f n)

  total-beyond :
      (W : A → ℕ) (f : ℕ → A) (i n : ℕ) (a : A) → n ≤ i → total W (update f i a) n ≡ total W f n
  total-beyond W f i zero a le = refl
  total-beyond W f i (suc n) a le = ground (arith, total-beyond W f i n a (omega arith))

  pub total-update :
      (W : A → ℕ) (f : ℕ → A) (i n : ℕ) (a : A)
      → i < n
      → total W (update f i a) n + W (f i) ≡ total W f n + W a
  total-update W f i zero a lt = absurd (omega arith)
  total-update W f i (suc n) a lt = elim (ℕ_discrete i n) [
    | yes e ↦ ground (arith, total-beyond W f i n a (omega (arith, e)), ap f e)
    | no ne ↦ ground (arith, total-update W f i n a (omega arith))
  ]

  pub le-total : (W : A → ℕ) (f : ℕ → A) (i n : ℕ) → i < n → W (f i) ≤ total W f n
  le-total W f i zero lt = absurd (omega arith)
  le-total W f i (suc n) lt = elim (ℕ_discrete i n) [
    | yes e ↦ omega (arith, ap (λ k. W (f k)) e)
    | no ne ↦ omega (arith, le-total W f i n (omega arith))
  ]

  pub total_zero :
      (V W : A → ℕ) (f : ℕ → A) (n : ℕ)
      → ((a : A) → V a ≡ 0 → W a ≡ 0)
      → total V f n ≡ 0
      → total W f n ≡ 0
  total_zero V W f zero h e = refl
  total_zero V W f (suc n) h e =
      omega (arith, total_zero V W f n h (omega (arith, e)), h (f n) (omega (arith, e)))
