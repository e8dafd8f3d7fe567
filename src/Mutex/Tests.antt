-- ===== src/Mutex/Tests.antt =====
-- The theorems on hw2/mutex.h at a state in which one thread holds the mutex and another has spun
-- in vain and gone to sleep.
use linux_summer.Prelude.{ℕ, zero, suc, ◌≡◌, ◌⊎◌, refl, subst, fun_ext, true, update, arith}
use linux_summer.Mutex.{
  Pc, outside, spinning, try_or, slow, waiting, asleep, critical, enter, Words, is_sleeping, lock,
  spin_busy, spun_out, swap_busy, wait_sleep, try_free, try_win, System, move, Reach, here, next,
}
use linux_summer.Mutex.Exclusion.{holds, mutual_exclusion}
use linux_summer.Mutex.Wakeup.{helps, no_lost_wakeup}

-- thread 0 has the mutex by `mutex_trylock`
abbrev owned : ℕ → Pc
owned = update (update (λ _. outside) 0 try_or) 0 critical

abbrev locked_words : Words
locked_words = record { state = 1; seq = 0 }

-- thread 1 in `mutex_lock`
abbrev spins : ℕ → System
spins k = record { words = locked_words; pc = update owned 1 (spinning k enter) }

update-update : (f : ℕ → Pc) (p p' : Pc) → update (update f 1 p) 1 p' ≡ update f 1 p'
update-update f p p' = fun_ext λ j. ground arith

spin_down : (k : ℕ) → Reach (spins k) → Reach (spins 0)
spin_down zero r = r
spin_down (suc k) r = spin_down k (
    subst (λ (f : ℕ → Pc). Reach (record { words = locked_words; pc = f }))
      (update-update owned (spinning (suc k) enter) (spinning k enter))
      (next r (move 1 (spin_busy refl))))

abbrev sleeper : System
sleeper = record {
  words = record { state = 3; seq = 0 };
  pc =
      update (update (update (update owned 1 (spinning 0 enter)) 1 (slow enter)) 1 (waiting enter))
        1 (asleep enter);
}

sleeper_reached : Reach sleeper
sleeper_reached =
    next
      (next
        (next
          (spin_down 128 (
            next (next (next here (move 0 (try_free refl))) (move 0 (try_win refl))) (move 1 lock)))
          (move 1 spun_out))
        (move 1 (swap_busy refl)))
      (move 1 (wait_sleep refl))

mutual_exclusion_example : ◌≡◌ {A = ℕ} 0 0
mutual_exclusion_example = mutual_exclusion sleeper_reached 0 0 refl refl

no_lost_wakeup_example :
    ((is_sleeping sleeper.words.state ≡ true) × ((i : ℕ) × (holds (sleeper.pc i) ≡ true)))
    ⊎ ((i : ℕ) × (helps (sleeper.pc i) ≡ true))
no_lost_wakeup_example = no_lost_wakeup sleeper_reached 1 refl
