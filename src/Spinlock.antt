-- ===== src/Spinlock.antt =====
-- hw2/spinlock.h: the test-and-test-and-set lock, as a step relation on its word and the places of
-- the threads. Each step is one access to the word.
pub mod Exclusion
pub mod Tests
use linux_summer.Prelude.{ℕ, ◌≡◌, Bool, true, false, update}

-- Which function called `spin_trylock`: the loop of `spin_lock`, or the user.
pub data Caller : Type 0 where
  spin_lock spin_trylock : Caller

-- Where a thread stands.
pub data Pc : Type 0 where
  outside : Pc
  loading : Caller → Pc  -- before the load of `spin_trylock`
  swapping : Caller → Pc  -- before its exchange
  inside : Pc

-- after a `spin_trylock` that returned false
abbrev pub failed : Caller → Pc
failed spin_lock = loading spin_lock
failed spin_trylock = outside

-- One access of one thread, to the word `w`.
pub data Move : Bool → Pc → Bool → Pc → Type 0 where
  call : {w : Bool} (c : Caller) → Move w outside w (loading c)
  load_busy : {w : Bool} (c : Caller) → w ≡ true → Move w (loading c) w (failed c)
  load_free : {w : Bool} (c : Caller) → w ≡ false → Move w (loading c) w (swapping c)
  swap_busy : {w : Bool} (c : Caller) → w ≡ true → Move w (swapping c) true (failed c)
  swap_free : {w : Bool} (c : Caller) → w ≡ false → Move w (swapping c) true inside
  spin_unlock : {w : Bool} → Move w inside false outside

pub record System : Type 0 where
  pub word : Bool
  pub pc : ℕ → Pc

pub data Step (s : System) : System → Type 0 where
  move :
      (i : ℕ) {w : Bool} {p : Pc}
      → Move s.word (s.pc i) w p
      → Step s (record { word = w; pc = update s.pc i p })

-- after `spin_init`
abbrev pub start : System
start = record { word = false; pc = λ i. outside }

pub data Reach : System → Type 0 where
  here : Reach start
  next : {s t : System} → Reach s → Step s t → Reach t
