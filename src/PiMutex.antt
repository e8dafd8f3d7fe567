-- ===== src/PiMutex.antt =====
-- hw2/mutex.h, the functions for priority inheritance, as a step relation on the word and the places
-- of the threads. Thread `i` has the id i + 1; the word is the id of its holder, or 0, with the bit
-- FUTEX_WAITERS. The kernel's part is what futex(2) says of FUTEX_LOCK_PI and FUTEX_UNLOCK_PI:
-- a free word is taken, otherwise the bit is set and the thread waits; an unlock gives the word to a
-- waiting thread, with the bit set if others wait, or clears it if none waits. `futex_lock_pi` is taken
-- not to fail: `mutex_lock_pi` ignores its result, and would go on without the mutex.
pub mod Exclusion
pub mod Tests
use linux_summer.Prelude.{ℕ, zero, suc, ◌+◌, ◌-◌, ◌≡◌, ◌≢◌, ◌⊎◌, Bool, true, false, update}
use linux_summer.Mutex.{mutex_spins}

-- Who called `mutex_trylock_pi`: the user, or the loop of `mutex_lock_pi` with so many rounds
-- after this one.
pub data Caller : Type 0 where
  user : Caller
  loop : ℕ → Caller

-- Where a thread stands.
pub data Pc : Type 0 where
  outside : Pc
  swapping : Caller → Pc  -- before the compare-and-swap of `mutex_trylock_pi`
  asking : Pc  -- before `futex_lock_pi`
  waiting : Pc  -- in `futex_lock_pi`, asleep
  inside : Pc
  releasing : Pc  -- before `futex_unlock_pi`

-- after a `mutex_trylock_pi` that returned false
abbrev pub failed : Caller → Pc
failed user = outside
failed (loop zero) = asking
failed (loop (suc k)) = swapping (loop k)

pub record Word : Type 0 where
  pub owner : ℕ
  pub waiters : Bool

abbrev pub free : Word
free = record { owner = 0; waiters = false }

-- the word with a thread's id alone
abbrev pub own : ℕ → Word
own i = record { owner = i + 1; waiters = false }

-- One access or call of thread `i`.
pub data Move (i : ℕ) : Word → Pc → Word → Pc → Type 0 where
  call_trylock : {w : Word} → Move i w outside w (swapping user)
  call_lock : {w : Word} → Move i w outside w (swapping (loop (mutex_spins - 1)))
  swap_free : {w : Word} (c : Caller) → w ≡ free → Move i w (swapping c) (own i) inside
  swap_busy : {w : Word} (c : Caller) → w ≢ free → Move i w (swapping c) w (failed c)
  lock_free : {w : Word} → w ≡ free → Move i w asking (own i) inside
  lock_wait : {w : Word} → w ≢ free → Move i w asking (record w { waiters = true }) waiting
  unlock_swap : {w : Word} → w ≡ own i → Move i w inside free outside
  unlock_call : {w : Word} → w ≢ own i → Move i w inside w releasing

pub record System : Type 0 where
  pub word : Word
  pub pc : ℕ → Pc

pub data Step (s : System) : System → Type 0 where
  move :
      (i : ℕ) {w : Word} {p : Pc}
      → Move i s.word (s.pc i) w p
      → Step s (record { word = w; pc = update s.pc i p })
  -- `futex_unlock_pi` of thread `i`, with and without a waiting thread
  hand_over :
      (i j : ℕ) (b : Bool)
      → s.pc i ≡ releasing
      → s.pc j ≡ waiting
      → (b ≡ true) ⊎ ((k : ℕ) → k ≢ j → s.pc k ≢ waiting)
      → Step s (record {
        word = record { owner = j + 1; waiters = b };
        pc = update (update s.pc i outside) j inside;
      })
  let_go :
      (i : ℕ)
      → s.pc i ≡ releasing
      → ((k : ℕ) → s.pc k ≢ waiting)
      → Step s (record { word = free; pc = update s.pc i outside })

-- after `mutex_init`
abbrev pub start : System
start = record { word = free; pc = λ i. outside }

pub data Reach (s : System) : System → Type 0 where
  here : Reach s s
  next : {t u : System} → Reach s t → Step t u → Reach s u
