-- ===== src/Mpmc/Tests.antt =====
-- A thread that finds no item and sleeps, and another that puts one and wakes it.
use linux_summer.Prelude.{
  ℕ, zero, suc, ◌≤◌, ◌<◌, ◌≡◌, ◌≢◌, refl, subst, ◌⊎◌, [], ◌∷◌, update, update-eq, update_twice,
  update_same, arith,
}
use linux_summer.Mpmc.{
  null, item, futex, Pc, outside, putting, notifying, waking, spinning, asleep, System, Reach,
  spins, enqueue, put_found, notify, wake, dequeue, spin, spun_out, park, sleep, notified, reread,
  return, here, next,
}
use linux_summer.Mpmc.Delivery.{delivered_once}
use linux_summer.Mpmc.Liveness.{wakeup_underway}

-- All rounds of the loop at an empty cell.
spin_all :
    (n : ℕ) (s : System) (t i : ℕ)
    → Reach s
    → s.pc t ≡ spinning i n
    → s.cell i ≡ null
    → Reach (record s { pc = update s.pc t (spinning i 0) })
spin_all zero s t i r e c =
    subst (λ (f : ℕ → Pc). Reach (record s { pc = f })) (update_same s.pc t (spinning i 0) e) r
spin_all (suc n) s t i r e c =
    subst (λ (f : ℕ → Pc). Reach (record s { pc = f }))
      (update_twice s.pc t (spinning i n) (spinning i 0))
      (spin_all n (record s { pc = update s.pc t (spinning i n) }) t i (next r (spin t i n e c))
        (update-eq s.pc t t (spinning i n) refl) c)

abbrev parked_run : (s : System) × Reach s × (s.pc 0 ≡ asleep 0) × (s.pc 1 ≡ outside)
parked_run = (
  _,
  next
      (next
        (next (spin_all spins _ 0 0 (next here (dequeue 0 refl)) refl refl)
          (spun_out 0 0 refl refl))
        (park 0 0 refl refl))
      (sleep 0 0 refl refl),
  refl,
  refl,
)

found_cell : futex 0 ≢ null
found_cell = cc

abbrev found_run : (s : System) × Reach s × (s.pc 1 ≡ notifying (futex 0) 0)
found_run = (_, next (next parked_run.1 (enqueue 1 7 refl)) (put_found 1 7 0 refl found_cell), refl)

abbrev zeroed_run : (s : System) × Reach s × (s.pc 0 ≡ asleep 0)
zeroed_run = (_, next found_run.1 (notify 1 0 0 refl), refl)

abbrev returned_run : (s : System) × Reach s × (s.received 0 ≡ item 7 ∷ [])
returned_run = (
  _,
  next
      (next (next (next zeroed_run.1 (wake 1 0 0 refl refl)) (notified 0 0 refl (omega arith)))
        (reread 0 0 refl))
      (return 0 0 (item 7) refl),
  refl,
)

delivered_once_example :
    (returned_run.0.received 0 ≡ [])
    ⊎ ((returned_run.0.received 0 ≡ item (returned_run.0.sent 0) ∷ [])
        × (0 < returned_run.0.put_index)
        × (0 < returned_run.0.pop_index))
delivered_once_example = delivered_once returned_run.0 returned_run.1 0

wakeup_underway_example :
    (zeroed_run.0.put_index ≤ 0)
    ⊎ ((u : ℕ) × (((v : ℕ) × (zeroed_run.0.pc u ≡ putting v 0))
          ⊎ ((zeroed_run.0.pc u ≡ notifying (futex 0) 0) ⊎ (zeroed_run.0.pc u ≡ waking 0))))
wakeup_underway_example = wakeup_underway zeroed_run.0 zeroed_run.1 0 0 zeroed_run.2
