-- ===== src/ThreadPool/Ending.antt =====
-- When the threads of a pool are told to terminate.
use linux_summer.Prelude.{ℕ, suc, ◌<◌, ◌≡◌, ◌≢◌, refl, ap, ◌⊎◌, inl, inr, Bool, true, false, arith}
use linux_summer.ThreadPool.{
  ThreadState, ts_idle, ts_work, ts_term, Pc, waiting, sorting, returned, System, Step, wake, leave,
  allocate, again, last, Reach, here, next,
}
use linux_summer.ThreadPool.Idle.{is_idle, idles, idles-update, one_busy, idles_start}

abbrev works : ThreadState → Bool
works ts_work = true
works ts_idle = false
works ts_term = false

abbrev ends : ThreadState → Bool
ends ts_term = true
ends ts_idle = false
ends ts_work = false

abbrev sorts : Pc → Bool
sorts sorting = true
sorts waiting = false
sorts returned = false

abbrev has_left : Pc → Bool
has_left returned = true
has_left waiting = false
has_left sorting = false

-- The pool has work, and its count of idle threads is right.
record Working (n : ℕ) (s : System) : Type 0 where
  pub counts : s.idlethreads ≡ idles s.st n
  pub busy : s.idlethreads < n
  pub sorted : (k : ℕ) → k < n → sorts (s.pc k) ≡ true → works (s.st k) ≡ true
  pub stays : (k : ℕ) → k < n → (ends (s.st k) ≡ false) × (has_left (s.pc k) ≡ false)

-- All work is done.
record Ending (n : ℕ) (s : System) : Type 0 where
  pub rests : (k : ℕ) → k < n → works (s.st k) ≡ false
  pub sorted : (k : ℕ) → k < n → sorts (s.pc k) ≡ false

not_idle : (p : ThreadState) → works p ≡ true → is_idle p ≡ false
not_idle ts_work e = refl
not_idle ts_idle e = absurd (ground (arith, e))
not_idle ts_term e = absurd (ground (arith, e))

idle_only : (p : ThreadState) → is_idle p ≡ true → works p ≡ false
idle_only ts_idle e = refl
idle_only ts_work e = absurd (ground (arith, e))
idle_only ts_term e = refl

Working-Step : {n : ℕ} {s t : System} → Step n s t → Working n s → Working n t ⊎ Ending n t
Working-Step {n} {s} (wake i li e w) x = inl (record {
  counts = x.counts;
  busy = x.busy;
  sorted = λ k lk h. ground (arith, x.sorted k lk, ap works w);
  stays = λ k lk. ((x.stays k lk).0, ground (arith, x.stays k lk));
})
Working-Step {n} {s} (leave i li e w) x = absurd (ground (arith, x.stays i li, ap ends w))
Working-Step {n} {s} (allocate j i lj ej li ei f) x =
    let c = idles-update s.st i n ts_work li in
    let one = ap is_idle ei in
    inl (record {
      counts = ground (arith, x.counts, c, one);
      busy = omega (arith, x.busy);
      sorted = λ k lk h. ground (arith, x.sorted k lk);
      stays = λ k lk. (ground (arith, x.stays k lk), (x.stays k lk).1);
    })
Working-Step {n} {s} (again i li e ne) x =
    let c = idles-update s.st i n ts_idle li in
    let one = not_idle (s.st i) (x.sorted i li (ap sorts e)) in
    inl (record {
      counts = ground (arith, x.counts, c, one);
      busy = omega (arith, x.busy, ne);
      sorted = λ k lk h. ground (arith, x.sorted k lk);
      stays = λ k lk. (ground (arith, x.stays k lk), ground (arith, x.stays k lk));
    })
Working-Step {n} {s} (last i li e q) x =
    let one = not_idle (s.st i) (x.sorted i li (ap sorts e)) in
    let others : (k : ℕ) → k < n → k ≢ i → sorts (s.pc k) ≡ false = λ k lk ne.
      let idle =
        idle_only (s.st k) (one_busy s.st i k n li lk one ne (omega (arith, q, x.counts))) in
      ground (arith, x.sorted k lk, idle) in
    inr (record { rests = λ k lk. ground arith; sorted = λ k lk. ground (arith, others k lk) })

Ending-Step : {n : ℕ} {s t : System} → Step n s t → Ending n s → Ending n t
Ending-Step {n} {s} (wake i li e w) x = absurd (ground (arith, x.rests i li, ap works w))
Ending-Step {n} {s} (leave i li e w) x = record {
  rests = x.rests;
  sorted = λ k lk. ground (arith, x.sorted k lk);
}
Ending-Step {n} {s} (allocate j i lj ej li ei f) x =
    absurd (ground (arith, x.sorted j lj, ap sorts ej))
Ending-Step {n} {s} (again i li e ne) x = absurd (ground (arith, x.sorted i li, ap sorts e))
Ending-Step {n} {s} (last i li e q) x = absurd (ground (arith, x.sorted i li, ap sorts e))

Reach-Working : {n : ℕ} {s : System} → Reach (suc n) s → Working (suc n) s ⊎ Ending (suc n) s
Reach-Working {n} here = inl (record {
  counts = omega (arith, idles_start n);
  busy = omega arith;
  sorted = λ k lk h. absurd (ground (arith, h));
  stays = λ k lk. (ground arith, refl);
})
Reach-Working (next r st) = elim (Reach-Working r) [
  | inl x ↦ Working-Step st x
  | inr x ↦ inr (Ending-Step st x)
]

-- In every reachable state of a pool in which some thread is told to terminate or has returned, no
-- thread has work or sorts, so all that was handed out is done.
pub all_done :
    {n : ℕ} {s : System}
    → Reach (suc n) s
    → (k : ℕ) → k < suc n
    → (s.st k ≡ ts_term) ⊎ (s.pc k ≡ returned)
    → (i : ℕ) → i < suc n
    → (s.st i ≢ ts_work) × (s.pc i ≢ sorting)
all_done {n} {s} r k lk o i li = elim (Reach-Working r) [
  | inl x ↦ elim o [
    | inl e ↦ absurd (ground (arith, x.stays k lk, ap ends e))
    | inr e ↦ absurd (ground (arith, x.stays k lk, ap has_left e))
  ]
  | inr x ↦ (
    λ e. ground (arith, x.rests i li, ap works e),
    λ e. ground (arith, x.sorted i li, ap sorts e),
  )
]

-- In every reachable state of a pool in which a thread has work, idlethreads is the number of idle
-- threads, and there is a thread that is not idle.
pub count_right :
    {n : ℕ} {s : System} (i : ℕ)
    → Reach (suc n) s
    → i < suc n
    → s.st i ≡ ts_work
    → (s.idlethreads ≡ idles s.st (suc n)) × (s.idlethreads < suc n)
count_right {n} {s} i r li e = elim (Reach-Working r) [
  | inl x ↦ (x.counts, x.busy)
  | inr x ↦ absurd (ground (arith, x.rests i li, ap works e))
]
