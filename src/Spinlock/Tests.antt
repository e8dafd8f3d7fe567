-- ===== src/Spinlock/Tests.antt =====
-- Thread 0 takes the spinlock, and thread 1 fails to.
use linux_summer.Prelude.{ℕ, ◌≡◌, refl, true, update}
use linux_summer.Spinlock.{
  spin_lock, spin_trylock, Pc, outside, loading, swapping, inside, call, load_free, swap_free,
  swap_busy, System, move, Reach, here, next, failed,
}
use linux_summer.Spinlock.Exclusion.{holds, spin_exclusion}

abbrev pcs : ℕ → Pc
pcs = update (update (λ i. outside) 0 (loading spin_trylock)) 1 (loading spin_lock)

abbrev taken : System
taken = record {
  word = true;
  pc =
      update
        (update (update (update pcs 1 (swapping spin_lock)) 0 (swapping spin_trylock)) 0 inside) 1
        (failed spin_lock);
}

taken_reached : Reach taken
taken_reached =
    next
      (next
        (next
          (next (next (next here (move 0 (call spin_trylock))) (move 1 (call spin_lock)))
            (move 1 (load_free spin_lock refl)))
          (move 0 (load_free spin_trylock refl)))
        (move 0 (swap_free spin_trylock refl)))
      (move 1 (swap_busy spin_lock refl))

spin_exclusion_example :
    ((i j : ℕ) → holds (taken.pc i) ≡ true → holds (taken.pc j) ≡ true → i ≡ j)
    × ((i : ℕ) → holds (taken.pc i) ≡ true → taken.word ≡ true)
    × (taken.word ≡ true → (i : ℕ) × (holds (taken.pc i) ≡ true))
spin_exclusion_example = spin_exclusion taken_reached
