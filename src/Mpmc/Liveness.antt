-- ===== src/Mpmc/Liveness.antt =====
-- A thread sleeps in `mpmc_dequeue` only while its value, or its wake-up, is still to come.
use linux_summer.Prelude.{
  ℕ, suc, ◌≤◌, ◌≡◌, ◌≢◌, refl, sym, ap, subst, ◌∙◌, ◌⊎◌, inl, inr, update, update-eq, update-ne,
  update_swap, arith,
}
use linux_summer.Mpmc.{
  futex, Pc, outside, putting, notifying, waking, spinning, parking, waiting, asleep, testing,
  rereading, over, System, Step, Reach, enqueue, put, put_found, notify, wake, wake_none, dequeue,
  seen, spin, spun_out, park, park_found, sleep, no_sleep, interrupted, wait_again, notified,
  reread, return, here, next,
}
use linux_summer.Mpmc.Cells.{Tickets, waits, Inv}
use linux_summer.Mpmc.Delivery.{Reach-Inv}
use linux_summer.Mpmc.Wakeups.{
  Coming, not_drawn, before_put, before_notify, zeroed, Awake, keeps, leaves,
}
use linux_summer.Mpmc.Sleepers.{
  enqueue-Awake, exchange-Awake, notify-Awake, woken-Awake, dequeue-Awake, parking-Awake,
  return-Awake,
}

wake-Awake :
    (s : System) (x : Awake s) (t j i : ℕ)
    → s.pc t ≡ waking j
    → s.pc j ≡ asleep i
    → Awake (record s { pc = update (update s.pc t outside) j (testing i) })
wake-Awake s x t j i e a =
    let ne : j ≢ t = λ q. cc (e, a, ap s.pc q) in
    let s1 = record s { pc = update s.pc j (testing i) } in
    let x1 : Awake s1 = keeps s x j (asleep i) (testing i) a refl refl (λ k f h. cc) in
    let e1 : s1.pc t ≡ waking j = update-ne s.pc j t (testing i) ne ∙ e in
    let a1 : (k : ℕ) → s1.pc j ≢ asleep k =
      λ k h. cc (sym (update-eq s.pc j j (testing i) refl) ∙ h) in
    let x2 : Awake (record s1 { pc = update s1.pc t outside }) = woken-Awake s1 x1 t j e1 a1 in
    subst (λ (f : ℕ → Pc). Awake (record s { pc = f }))
      (update_swap s.pc j t (testing i) outside ne) x2

Step-Awake : (s s' : System) (x : Awake s) (g : Tickets) (y : Inv s g) → Step s s' → Awake s'
Step-Awake s _ x g y (enqueue t v e) = enqueue-Awake s x t v e
Step-Awake s _ x g y (put t v i e c) =
    exchange-Awake s g y x t v i outside e (λ u z. cc (c, z)) refl
Step-Awake s _ x g y (put_found t v i e c) =
    exchange-Awake s g y x t v i (notifying (s.cell i) i) e (λ u z. ap (λ w. notifying w i) z) refl
Step-Awake s _ x g y (notify t j i e) = notify-Awake s x t j i e
Step-Awake s _ x g y (wake t j i e a) = wake-Awake s x t j i e a
Step-Awake s _ x g y (wake_none t j e n) = woken-Awake s x t j e n
Step-Awake s _ x g y (dequeue t e) = dequeue-Awake s x t e
Step-Awake s _ x g y (seen t i n e c) = leaves s x t (spinning i n) (over i (s.cell i)) e refl refl
Step-Awake s _ x g y (spin t i n e c) = leaves s x t (spinning i (suc n)) (spinning i n) e refl refl
Step-Awake s _ x g y (spun_out t i e c) = leaves s x t (spinning i 0) (parking i) e refl refl
Step-Awake s _ x g y (park t i e c) =
    parking-Awake s x t i (waiting i) e (λ k h. (ground (arith, h), c))
Step-Awake s _ x g y (park_found t i e c) = parking-Awake s x t i (over i (s.cell i)) e (λ k h. cc)
Step-Awake s _ x g y (sleep t i e o) =
    keeps s x t (waiting i) (asleep i) e refl refl (λ k f h. absurd (omega (arith, o, f)))
Step-Awake s _ x g y (no_sleep t i e o) =
    keeps s x t (waiting i) (testing i) e refl refl (λ k f h. cc)
Step-Awake s _ x g y (interrupted t i e) =
    keeps s x t (asleep i) (testing i) e refl refl (λ k f h. cc)
Step-Awake s _ x g y (wait_again t i e o) =
    keeps s x t (testing i) (waiting i) e refl refl (λ k f h. cc)
Step-Awake s _ x g y (notified t i e o) = leaves s x t (testing i) (rereading i) e refl refl
Step-Awake s _ x g y (reread t i e) = leaves s x t (rereading i) (over i (s.cell i)) e refl refl
Step-Awake s _ x g y (return t i cv e) = return-Awake s x t i cv e

Reach-Awake : (s : System) → Reach s → Awake s
Reach-Awake _ here = record {
  waiters = λ t i w. cc;
  putters = λ i lt c. absurd (omega (arith, lt));
}
Reach-Awake s (next {s = r} p q) =
    let (g, y) = Reach-Inv r p in Step-Awake r s (Reach-Awake r p) g y q

-- In every reachable state, if a thread is asleep in `mpmc_dequeue`, then no call of `mpmc_enqueue` has drawn
-- its ticket, or there is a thread in `mpmc_enqueue` that has drawn it and is before its exchange, or that
-- is before its write to the sleeper's futex, or before the wake-up of the sleeper.
pub wakeup_underway :
    (s : System)
    → Reach s
    → (t i : ℕ) → s.pc t ≡ asleep i
    → (s.put_index ≤ i)
      ⊎ ((u : ℕ) × (((v : ℕ) × (s.pc u ≡ putting v i))
            ⊎ ((s.pc u ≡ notifying (futex t) i) ⊎ (s.pc u ≡ waking t))))
wakeup_underway s r t i e = coming ((Reach-Awake s r).waiters t i (ap waits e))
  where
    coming :
        Coming s t i
        → (s.put_index ≤ i)
          ⊎ ((u : ℕ) × (((v : ℕ) × (s.pc u ≡ putting v i))
                ⊎ ((s.pc u ≡ notifying (futex t) i) ⊎ (s.pc u ≡ waking t))))
    coming (not_drawn le) = inl le
    coming (before_put u v p) = inr (u, inl (v, p))
    coming (before_notify u p) = inr (u, inr (inl p))
    coming (zeroed f h) = let (u, p) = h e in inr (u, inr (inr p))
