-- ===== src/ThreadPool.antt =====
-- The thread pool of hw1/qsort-mt.c: `qsort_mt`, `allocate_thread` and `qsort_thread` as a step relation
-- on the states of the threads and the count of idle ones. A section under `mtx_al` is one step; the
-- signal of a condition variable is left out, since a thread tests its state before it waits, under the
-- same mutex as the writer. The sorting itself is in Qsort.
pub mod Idle
pub mod Ending
pub mod Setup
pub mod Tests
use linux_summer.Prelude.{ℕ, ◌+◌, ◌-◌, ◌<◌, ◌≡◌, ◌≢◌, ◌==◌, ltb, if◌then◌else◌, update}

pub data ThreadState : Type 0 where
  ts_idle ts_work ts_term : ThreadState

-- Where a thread stands in `qsort_thread`.
pub data Pc : Type 0 where
  waiting : Pc  -- in the loop on its state
  sorting : Pc  -- in `qsort_algo`
  returned : Pc

-- `struct common` and the states of its pool
pub record System : Type 0 where
  pub st : ℕ → ThreadState
  pub pc : ℕ → Pc
  pub idlethreads : ℕ

-- the states after the last thread has told the others to terminate
abbrev pub all_told : ℕ → (ℕ → ThreadState) → ℕ → ℕ → ThreadState
all_told n st i k = if k == i then ts_idle else (if ltb k n then ts_term else st k)

-- after `allocate_thread` has returned thread `i`
abbrev pub allocated : System → ℕ → System
allocated s i = record s { st = update s.st i ts_work; idlethreads = s.idlethreads - 1 }

-- One step of a pool of `n` threads.
pub data Step (n : ℕ) (s : System) : System → Type 0 where
  wake :
      (i : ℕ)
      → i < n
      → s.pc i ≡ waiting
      → s.st i ≡ ts_work
      → Step n s (record s { pc = update s.pc i sorting })
  leave :
      (i : ℕ)
      → i < n
      → s.pc i ≡ waiting
      → s.st i ≡ ts_term
      → Step n s (record s { pc = update s.pc i returned })
  -- thread `j` allocates thread `i`, the first idle one
  allocate :
      (j i : ℕ)
      → j < n
      → s.pc j ≡ sorting
      → i < n
      → s.st i ≡ ts_idle
      → ((k : ℕ) → k < i → s.st k ≢ ts_idle)
      → Step n s (allocated s i)
  again :
      (i : ℕ)
      → i < n
      → s.pc i ≡ sorting
      → s.idlethreads + 1 ≢ n
      → Step n s (record {
        st = update s.st i ts_idle;
        pc = update s.pc i waiting;
        idlethreads = s.idlethreads + 1;
      })
  last :
      (i : ℕ)
      → i < n
      → s.pc i ≡ sorting
      → s.idlethreads + 1 ≡ n
      → Step n s (record {
        st = all_told n s.st i;
        pc = update s.pc i returned;
        idlethreads = s.idlethreads + 1;
      })

-- `qsort_mt` has handed out the first batch.
abbrev pub start : ℕ → System
start n = record { st = update (λ k. ts_idle) 0 ts_work; pc = λ k. waiting; idlethreads = n - 1 }

pub data Reach (n : ℕ) : System → Type 0 where
  here : Reach n (start n)
  next : {s t : System} → Reach n s → Step n s t → Reach n t
