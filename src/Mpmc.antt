-- ===== src/Mpmc.antt =====
-- `mpmc_enqueue` and `mpmc_dequeue` of hw3/mpmc.c, as a step relation of any number of threads: a ticket,
-- the accesses to the ticket's cell, and the futex of a dequeuer that sleeps. A cell has the number of its
-- ticket, which is what `mpmc_find_cell` makes of the nodes, and a thread's `futex_addr` is a member of a
-- family, since it is in one call at a time. A value that is put is not NULL. Memory is sequentially consistent.
-- The indices, `long` in the source, do not wrap: that would take 2 ^ 63 calls.
pub mod Cells
pub mod Others
pub mod Quiet
pub mod Writes
pub mod Phases
pub mod Moves
pub mod Parking
pub mod Delivery
pub mod Wakeups
pub mod Sleepers
pub mod Liveness
pub mod Nodes
pub mod Tests
use linux_summer.Prelude.{ℕ, zero, suc, ◌+◌, ◌≡◌, ◌≢◌, ◌^◌, List, [], ◌∷◌, update}

-- what a cell points at: nothing, the value that was put there, or the `futex_addr` of a thread
pub data Cell : Type 0 where
  null : Cell
  item : (v : ℕ) → Cell
  futex : (j : ℕ) → Cell

-- `times` at the first round of the loop in `mpmc_dequeue`
abbrev pub spins : ℕ
spins = 2 ^ 20

-- Where a thread stands, with its ticket.
pub data Pc : Type 0 where
  outside : Pc
  putting : (v i : ℕ) → Pc  -- before the exchange of `mpmc_enqueue`
  notifying : (cv : Cell) (i : ℕ) → Pc  -- before the write to what the cell pointed at
  waking : (j : ℕ) → Pc  -- before `mpmc_futex_wake`
  spinning : (i n : ℕ) → Pc  -- before a load of the cell, with `n` rounds to go after it
  parking : (i : ℕ) → Pc  -- before the exchange of `mpmc_dequeue`
  waiting : (i : ℕ) → Pc  -- before `mpmc_futex_wait`
  asleep : (i : ℕ) → Pc
  testing : (i : ℕ) → Pc  -- before the test of `futex_addr`
  rereading : (i : ℕ) → Pc  -- before the last load of the cell
  over : (i : ℕ) (cv : Cell) → Pc

-- The queue and its threads. `sent` and `received` only record the values that the calls with a ticket
-- were given and have returned.
pub record System : Type 0 where
  pub put_index : ℕ
  pub pop_index : ℕ
  pub cell : ℕ → Cell
  pub futex_addr : ℕ → ℕ
  pub pc : ℕ → Pc
  pub sent : ℕ → ℕ
  pub received : ℕ → List Cell

-- One access of thread `t`.
pub data Step (s : System) : System → Type 0 where
  enqueue :
      (t v : ℕ)
      → s.pc t ≡ outside
      → Step s (record s {
        put_index = s.put_index + 1;
        sent = update s.sent s.put_index v;
        pc = update s.pc t (putting v s.put_index);
      })
  put :
      (t v i : ℕ)
      → s.pc t ≡ putting v i
      → s.cell i ≡ null
      → Step s (record s { cell = update s.cell i (item v); pc = update s.pc t outside })
  put_found :
      (t v i : ℕ)
      → s.pc t ≡ putting v i
      → s.cell i ≢ null
      → Step s (record s {
        cell = update s.cell i (item v);
        pc = update s.pc t (notifying (s.cell i) i);
      })
  notify :
      (t j i : ℕ)
      → s.pc t ≡ notifying (futex j) i
      → Step s (record s { futex_addr = update s.futex_addr j 0; pc = update s.pc t (waking j) })
  wake :
      (t j i : ℕ)
      → s.pc t ≡ waking j
      → s.pc j ≡ asleep i
      → Step s (record s { pc = update (update s.pc t outside) j (testing i) })
  wake_none :
      (t j : ℕ)
      → s.pc t ≡ waking j
      → ((i : ℕ) → s.pc j ≢ asleep i)
      → Step s (record s { pc = update s.pc t outside })
  dequeue :
      (t : ℕ)
      → s.pc t ≡ outside
      → Step s (record s {
        pop_index = s.pop_index + 1;
        futex_addr = update s.futex_addr t 1;
        pc = update s.pc t (spinning s.pop_index spins);
      })
  seen :
      (t i n : ℕ)
      → s.pc t ≡ spinning i n
      → s.cell i ≢ null
      → Step s (record s { pc = update s.pc t (over i (s.cell i)) })
  spin :
      (t i n : ℕ)
      → s.pc t ≡ spinning i (suc n)
      → s.cell i ≡ null
      → Step s (record s { pc = update s.pc t (spinning i n) })
  spun_out :
      (t i : ℕ)
      → s.pc t ≡ spinning i 0
      → s.cell i ≡ null
      → Step s (record s { pc = update s.pc t (parking i) })
  park :
      (t i : ℕ)
      → s.pc t ≡ parking i
      → s.cell i ≡ null
      → Step s (record s { cell = update s.cell i (futex t); pc = update s.pc t (waiting i) })
  park_found :
      (t i : ℕ)
      → s.pc t ≡ parking i
      → s.cell i ≢ null
      → Step s
          (record s { cell = update s.cell i (futex t); pc = update s.pc t (over i (s.cell i)) })
  sleep :
      (t i : ℕ)
      → s.pc t ≡ waiting i
      → s.futex_addr t ≡ 1
      → Step s (record s { pc = update s.pc t (asleep i) })
  no_sleep :
      (t i : ℕ)
      → s.pc t ≡ waiting i
      → s.futex_addr t ≢ 1
      → Step s (record s { pc = update s.pc t (testing i) })
  interrupted : (t i : ℕ) → s.pc t ≡ asleep i → Step s (record s { pc = update s.pc t (testing i) })
  wait_again :
      (t i : ℕ)
      → s.pc t ≡ testing i
      → s.futex_addr t ≡ 1
      → Step s (record s { pc = update s.pc t (waiting i) })
  notified :
      (t i : ℕ)
      → s.pc t ≡ testing i
      → s.futex_addr t ≢ 1
      → Step s (record s { pc = update s.pc t (rereading i) })
  reread :
      (t i : ℕ)
      → s.pc t ≡ rereading i
      → Step s (record s { pc = update s.pc t (over i (s.cell i)) })
  return :
      (t i : ℕ) (cv : Cell)
      → s.pc t ≡ over i cv
      → Step s (record s {
        received = update s.received i (cv ∷ s.received i);
        pc = update s.pc t outside;
      })

-- after `mpmc_init_queue`
abbrev pub start : System
start = record {
  put_index = 0;
  pop_index = 0;
  cell = λ i. null;
  futex_addr = λ t. 1;
  pc = λ t. outside;
  sent = λ i. 0;
  received = λ i. [];
}

pub data Reach : System → Type 0 where
  here : Reach start
  next : {s t : System} → Reach s → Step s t → Reach t
