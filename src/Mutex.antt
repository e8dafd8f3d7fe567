-- ===== src/Mutex.antt =====
-- hw2/mutex.h (the default protocol) and hw2/cond.h: threads that share one mutex and one
-- condition variable, one access to a shared word or one futex call at a time, in any order.
-- `& MUTEX_LOCKED` is `% 2`, and MUTEX_SLEEPING is the bit of weight 2.
-- The futex calls do what hw2/futex.h says of them: `futex_wait` sleeps only if the word has the
-- value at the call, and may also return without a wake-up; a wake-up wakes one sleeper, if any.
pub mod Exclusion
pub mod Wakeup
mod Tests
use linux_summer.Prelude.{
  ℕ, suc, ◌+◌, ◌-◌, ◌*◌, ◌/◌, ◌%◌, ◌^◌, ◌≡◌, ◌≢◌, Bool, true, false, if◌then◌else◌, ◌==◌, update,
}

abbrev pub mutex_spins : ℕ
mutex_spins = 128

abbrev pub cond_spins : ℕ
cond_spins = 128

abbrev pub is_locked : ℕ → Bool
is_locked w = w % 2 == 1

abbrev pub is_sleeping : ℕ → Bool
is_sleeping w = w / 2 % 2 == 1

-- `w | MUTEX_LOCKED` and `w | MUTEX_SLEEPING`
abbrev pub or_locked : ℕ → ℕ
or_locked w = w + (1 - w % 2)

abbrev pub or_sleeping : ℕ → ℕ
or_sleeping w = w + (1 - w / 2 % 2) * 2

-- MUTEX_LOCKED | MUTEX_SLEEPING
abbrev pub contended : ℕ
contended = 3

-- what the caller of `mutex_lock` does with the lock: it goes on, or it is `cond_wait`, which
-- marks the mutex first
pub data Return : Type 0 where
  enter mark : Return

-- Where a thread stands, with the locals that are live there.
pub data Pc : Type 0 where
  outside : Pc
  spinning : (k : ℕ) (r : Return) → Pc  -- `mutex_lock`, `k` more tries
  spin_or : (k : ℕ) (r : Return) → Pc  -- in a try, before the `fetch_or`
  try_or : Pc  -- in `mutex_trylock`, before the `fetch_or`
  slow : (r : Return) → Pc  -- before an exchange of `mutex_lock`
  waiting : (r : Return) → Pc  -- before the `futex_wait` of `mutex_lock`
  asleep : (r : Return) → Pc  -- in that `futex_wait`
  critical : Pc
  waking : Pc  -- in `mutex_unlock`, before the `futex_wake`
  cond_loaded : (seq : ℕ) → Pc  -- in `cond_wait`, before `mutex_unlock`
  cond_waking : (seq : ℕ) → Pc  -- in that `mutex_unlock`, before the `futex_wake`
  cond_spinning : (seq k : ℕ) → Pc
  cond_waiting : (seq : ℕ) → Pc  -- before the `futex_wait` of `cond_wait`
  cond_asleep : Pc  -- in that `futex_wait`, on the condition variable
  requeued : Pc  -- in that `futex_wait`, moved to the mutex
  marking : Pc  -- in `cond_wait`, before the `fetch_or`
  signalling : (held : Bool) → Pc  -- in `cond_signal`, before the `futex_wake`
  broadcasting : (held : Bool) → Pc  -- in `cond_broadcast`, before the `futex_requeue`

-- the two words: `mutex->state` and `cond->seq`
pub record Words : Type 0 where
  pub state : ℕ
  pub seq : ℕ

-- after `mutex_lock` has the lock
abbrev pub granted : Return → Pc
granted enter = critical
granted mark = marking

abbrev pub back : Bool → Pc
back true = critical
back false = outside

abbrev pub set_state : Words → ℕ → Words
set_state m w = record m { state = w }

abbrev pub bump_seq : Words → Words
bump_seq m = record m { seq = (m.seq + 1) % 2 ^ 32 }

-- One step of one thread in `cond_wait`, `cond_signal` or `cond_broadcast`, apart from the calls
-- of `mutex_lock`, which go on as `spinning`.
pub data CondMove (m : Words) : Pc → Words → Pc → Type 0 where
  cond_wait : CondMove m critical m (cond_loaded m.seq)
  cond_unlock_quiet :
      {s : ℕ}
      → is_sleeping m.state ≡ false
      → CondMove m (cond_loaded s) (set_state m 0) (cond_spinning s cond_spins)
  cond_unlock_wake :
      {s : ℕ}
      → is_sleeping m.state ≡ true
      → CondMove m (cond_loaded s) (set_state m 0) (cond_waking s)
  cond_changed :
      {s k : ℕ} → m.seq ≢ s → CondMove m (cond_spinning s (suc k)) m (spinning mutex_spins enter)
  cond_same : {s k : ℕ} → m.seq ≡ s → CondMove m (cond_spinning s (suc k)) m (cond_spinning s k)
  cond_spun_out : {s : ℕ} → CondMove m (cond_spinning s 0) m (cond_waiting s)
  cond_sleep : {s : ℕ} → m.seq ≡ s → CondMove m (cond_waiting s) m cond_asleep
  cond_missed : {s : ℕ} → m.seq ≢ s → CondMove m (cond_waiting s) m (spinning mutex_spins mark)
  cond_interrupted : CondMove m cond_asleep m (spinning mutex_spins mark)
  requeued_interrupted : CondMove m requeued m (spinning mutex_spins mark)
  cond_mark : CondMove m marking (set_state m (or_sleeping m.state)) critical
  signal : {p : Pc} (held : Bool) → p ≡ back held → CondMove m p (bump_seq m) (signalling held)
  broadcast : {p : Pc} (held : Bool) → p ≡ back held → CondMove m p (bump_seq m) (broadcasting held)

-- One step of one thread that no other thread takes part in.
pub data Move (m : Words) : Pc → Words → Pc → Type 0 where
  lock : Move m outside m (spinning mutex_spins enter)
  spin_busy :
      {k : ℕ} {r : Return} → is_locked m.state ≡ true → Move m (spinning (suc k) r) m (spinning k r)
  spin_free :
      {k : ℕ} {r : Return} → is_locked m.state ≡ false → Move m (spinning (suc k) r) m (spin_or k r)
  spin_lose :
      {k : ℕ} {r : Return}
      → is_locked m.state ≡ true
      → Move m (spin_or k r) (set_state m (or_locked m.state)) (spinning k r)
  spin_win :
      {k : ℕ} {r : Return}
      → is_locked m.state ≡ false
      → Move m (spin_or k r) (set_state m (or_locked m.state)) (granted r)
  spun_out : {r : Return} → Move m (spinning 0 r) m (slow r)
  swap_busy :
      {r : Return} → is_locked m.state ≡ true → Move m (slow r) (set_state m contended) (waiting r)
  swap_free :
      {r : Return} → is_locked m.state ≡ false → Move m (slow r) (set_state m contended) (granted r)
  wait_sleep : {r : Return} → m.state ≡ contended → Move m (waiting r) m (asleep r)
  wait_retry : {r : Return} → m.state ≢ contended → Move m (waiting r) m (slow r)
  wait_interrupted : {r : Return} → Move m (asleep r) m (slow r)
  try_busy : is_locked m.state ≡ true → Move m outside m outside
  try_free : is_locked m.state ≡ false → Move m outside m try_or
  try_lose : is_locked m.state ≡ true → Move m try_or (set_state m (or_locked m.state)) outside
  try_win : is_locked m.state ≡ false → Move m try_or (set_state m (or_locked m.state)) critical
  unlock_quiet : is_sleeping m.state ≡ false → Move m critical (set_state m 0) outside
  unlock_wake : is_sleeping m.state ≡ true → Move m critical (set_state m 0) waking
  condition : {m' : Words} {p p' : Pc} → CondMove m p m' p' → Move m p m' p'

-- Threads in a `futex_wait` on the mutex, and where a wake-up puts them.
pub data Woken : Pc → Pc → Type 0 where
  from_lock : {r : Return} → Woken (asleep r) (slow r)
  from_cond : Woken requeued (spinning mutex_spins mark)

abbrev pub on_mutex : Pc → Bool
on_mutex (asleep r) = true
on_mutex requeued = true
on_mutex _ = false

abbrev pub on_cond : Pc → Bool
on_cond cond_asleep = true
on_cond _ = false

-- Who calls `futex_wake` on the mutex, and where the call returns to.
pub data Wakes : Pc → Pc → Type 0 where
  from_unlock : Wakes waking outside
  from_wait : {s : ℕ} → Wakes (cond_waking s) (cond_spinning s cond_spins)

-- `futex_requeue` moves the sleepers that it does not wake to the mutex.
abbrev pub requeue : Pc → Pc
requeue cond_asleep = requeued
requeue p = p

pub record System : Type 0 where
  pub words : Words
  pub pc : ℕ → Pc

pub data Step (s : System) : System → Type 0 where
  move :
      (i : ℕ) {m : Words} {p : Pc}
      → Move s.words (s.pc i) m p
      → Step s (record { words = m; pc = update s.pc i p })
  -- thread `i` wakes thread `j` in `mutex_unlock`
  wake :
      (i j : ℕ) {p p' : Pc}
      → Wakes (s.pc i) p
      → Woken (s.pc j) p'
      → Step s (record s { pc = update (update s.pc i p) j p' })
  wake_none :
      (i : ℕ) {p : Pc}
      → Wakes (s.pc i) p
      → ((j : ℕ) → on_mutex (s.pc j) ≡ false)
      → Step s (record s { pc = update s.pc i p })
  signal_one :
      (i j : ℕ) {held : Bool}
      → s.pc i ≡ signalling held
      → s.pc j ≡ cond_asleep
      → Step s (record s { pc = update (update s.pc i (back held)) j (spinning mutex_spins mark) })
  signal_none :
      (i : ℕ) {held : Bool}
      → s.pc i ≡ signalling held
      → ((j : ℕ) → on_cond (s.pc j) ≡ false)
      → Step s (record s { pc = update s.pc i (back held) })
  broadcast_some :
      (i j : ℕ) {held : Bool}
      → s.pc i ≡ broadcasting held
      → s.pc j ≡ cond_asleep
      → Step s (record s {
        pc = update (update (λ k. requeue (s.pc k)) i (back held)) j (spinning mutex_spins mark);
      })
  broadcast_none :
      (i : ℕ) {held : Bool}
      → s.pc i ≡ broadcasting held
      → ((j : ℕ) → on_cond (s.pc j) ≡ false)
      → Step s (record s { pc = update s.pc i (back held) })

-- `mutex_init` and `cond_init`, with every thread outside
abbrev pub start : System
start = record { words = record { state = 0; seq = 0 }; pc = λ _. outside }

pub data Reach : System → Type 0 where
  here : Reach start
  next : {s t : System} → Reach s → Step s t → Reach t
