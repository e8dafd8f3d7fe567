-- ===== src/PiMutex/Tests.antt =====
-- Thread 0 takes the mutex, and thread 1 asks the kernel for it after its last round.
use linux_summer.Prelude.{
  ℕ, zero, suc, ◌+◌, ◌-◌, ◌≡◌, ◌≢◌, refl, sym, ap, subst, ◌∙◌, true, update, arith,
}
use linux_summer.Mutex.{mutex_spins}
use linux_summer.PiMutex.{
  user, loop, outside, swapping, asking, waiting, inside, Word, free, own, Move, call_trylock,
  call_lock, swap_free, swap_busy, lock_wait, System, start, move, Reach, here, next,
}
use linux_summer.PiMutex.Exclusion.{holds, pi_exclusion, AllBy, waiting-served}

abbrev taken : System
taken = record {
  word = own 0;
  pc =
      update (update (update (λ i. outside) 0 (swapping user)) 0 inside) 1
        (swapping (loop (mutex_spins - 1)));
}

taken_reached : Reach start taken
taken_reached =
    next (next (next here (move 0 call_trylock)) (move 0 (swap_free user refl))) (move 1 call_lock)

not_free : (i : ℕ) (w : Word) → w ≡ own i → w ≢ free
not_free i w e f = ground (arith, ap (λ (z : Word). z.owner) (sym e ∙ f))

spun_out :
    (k : ℕ) (s : System)
    → Reach start s
    → s.word ≡ own 0
    → s.pc 1 ≡ swapping (loop k)
    → (t : System) × Reach start t × (t.word ≡ own 0) × (t.pc 1 ≡ asking)
spun_out zero s r w e = (
  record { word = s.word; pc = update s.pc 1 asking },
  next r (
      move 1 (
        subst (λ z. Move 1 s.word z s.word asking) (sym e)
          (swap_busy (loop zero) (not_free 0 s.word w)))),
  w,
  refl,
)
spun_out (suc k) s r w e =
    spun_out k (record { word = s.word; pc = update s.pc 1 (swapping (loop k)) })
      (next r (
        move 1 (
          subst (λ z. Move 1 s.word z s.word (swapping (loop k))) (sym e)
            (swap_busy (loop (suc k)) (not_free 0 s.word w)))))
      w refl

spinning_done : (t : System) × Reach start t × (t.word ≡ own 0) × (t.pc 1 ≡ asking)
spinning_done = spun_out (mutex_spins - 1) taken taken_reached refl refl

abbrev asleep : System
asleep =
    let t = spinning_done.0 in
    record { word = record t.word { waiters = true }; pc = update t.pc 1 waiting }

asleep_reached : Reach start asleep
asleep_reached =
    let (t, r, w, e) = spinning_done in
    next r (
      move 1 (
        subst (λ z. Move 1 t.word z (record t.word { waiters = true }) waiting) (sym e)
          (lock_wait (not_free 0 t.word w))))

pi_exclusion_example :
    ((i j : ℕ) → holds (asleep.pc i) ≡ true → holds (asleep.pc j) ≡ true → i ≡ j)
    × ((i : ℕ) → holds (asleep.pc i) ≡ true → asleep.word.owner ≡ i + 1)
    × ((i : ℕ) → asleep.word.owner ≡ i + 1 → holds (asleep.pc i) ≡ true)
pi_exclusion_example = pi_exclusion asleep_reached

waiting-served_example :
    (h : ℕ) × (holds (asleep.pc h) ≡ true)
    × ((t : System) × (r : Reach asleep t) × AllBy h r × (t.pc 1 ≡ inside))
waiting-served_example = waiting-served 1 asleep_reached refl
