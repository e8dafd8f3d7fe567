-- ===== src/ThreadPool/Idle.antt =====
-- How many threads of a pool are idle.
use linux_summer.Prelude.{
  ℕ, zero, suc, ◌+◌, ◌≤◌, ◌<◌, ◌≡◌, ◌≢◌, refl, ap, Bool, true, false, one_if, update, arith,
  ℕ_discrete,
}
use linux_summer.ThreadPool.{ThreadState, ts_idle, ts_work, ts_term}

abbrev pub is_idle : ThreadState → Bool
is_idle ts_idle = true
is_idle ts_work = false
is_idle ts_term = false

abbrev pub idles : (ℕ → ThreadState) → ℕ → ℕ
idles st zero = 0
idles st (suc n) = idles st n + one_if (is_idle (st n))

idles-beyond :
    (st : ℕ → ThreadState) (i n : ℕ) (p : ThreadState)
    → n ≤ i
    → idles (update st i p) n ≡ idles st n
idles-beyond st i zero p le = refl
idles-beyond st i (suc n) p le = ground (arith, idles-beyond st i n p (omega arith))

pub idles-update :
    (st : ℕ → ThreadState) (i n : ℕ) (p : ThreadState)
    → i < n
    → idles (update st i p) n + one_if (is_idle (st i)) ≡ idles st n + one_if (is_idle p)
idles-update st i zero p lt = absurd (omega arith)
idles-update st i (suc n) p lt = elim (ℕ_discrete i n) [
  | yes e ↦ ground (arith, idles-beyond st i n p (omega (arith, e)), ap st e)
  | no ne ↦ ground (arith, idles-update st i n p (omega arith))
]

pub idles_most : (st : ℕ → ThreadState) (n : ℕ) → idles st n ≤ n
idles_most st zero = omega arith
idles_most st (suc n) = ground (arith, idles_most st n)

-- If all but one are idle, a thread that is not idle is that one.
pub one_busy :
    (st : ℕ → ThreadState) (i k n : ℕ)
    → i < n
    → k < n
    → is_idle (st i) ≡ false
    → k ≢ i
    → idles st n + 1 ≡ n
    → is_idle (st k) ≡ true
one_busy st i k n li lk ei ne e =
    let a = idles-update st i n ts_idle li in
    let b = idles-update (update st i ts_idle) k n ts_idle lk in
    let c = idles_most (update (update st i ts_idle) k ts_idle) n in ground (arith, a, b, c, ei)

pub idles_start : (n : ℕ) → idles (update (λ k. ts_idle) 0 ts_work) (suc n) ≡ n
idles_start zero = refl
idles_start (suc n) = ground (arith, idles_start n)
