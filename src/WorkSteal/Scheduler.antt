-- ===== src/WorkSteal/Scheduler.antt =====
-- The scheduler of hw3/work-steal.c: `thread`, `do_work`, `print_task`, `done_task` and `main`, as a step
-- relation of `nthreads` threads. A deque is taken to be the list of its items, with `take` at the back and
-- `steal` at the front, each as one step; either may also find nothing, as when `take` loses a race or lowers
-- `bottom` for a moment. A print task is its payload; `done_work` is never in a deque.
pub mod Held
pub mod Ending
pub mod Tests
use linux_summer.Prelude.{
  ℕ, zero, suc, ◌+◌, ◌*◌, ◌≤◌, ◌<◌, ◌≡◌, ◌≢◌, ◌==◌, if◌then◌else◌, Bool, true, false, List, [], ◌∷◌,
  ◌++◌, update,
}
use linux_summer.Prelude.Int.{ℤ, pos}
use linux_summer.WorkSteal.Join.{join_work}

-- Where a thread stands.
pub data Pc : Type 0 where
  own_queue : Pc  -- before `take`
  stealing : (i : ℕ) → Pc  -- in the loop over the other queues
  checking : Pc  -- before the load of `done`
  printing : (payload : ℕ) → Pc  -- before `print_task`
  joining : Pc  -- before its `join_work`
  finishing : Pc  -- before `done_task`
  returned : Pc

pub record System : Type 0 where
  pub queue : ℕ → List ℕ
  pub pc : ℕ → Pc
  pub join_count : ℤ
  pub done : Bool
  pub printed : List ℕ

-- a non-NULL address
abbrev pub done_work : ℕ
done_work = 1

-- the next round of `do_work` on what `join_work` returned
abbrev pub next_work : ℕ → Pc
next_work work = if work == 0 then own_queue else finishing

-- One step of thread `t`.
pub data Step (nthreads : ℕ) (s : System) : System → Type 0 where
  take_item :
      (t k : ℕ) (rest : List ℕ)
      → t < nthreads
      → s.pc t ≡ own_queue
      → s.queue t ≡ rest ++ (k ∷ [])
      → Step nthreads s
          (record s { queue = update s.queue t rest; pc = update s.pc t (printing k) })
  take_empty :
      (t : ℕ)
      → t < nthreads
      → s.pc t ≡ own_queue
      → Step nthreads s (record s { pc = update s.pc t (stealing 0) })
  skip_self :
      (t i : ℕ)
      → t < nthreads
      → s.pc t ≡ stealing i
      → i < nthreads
      → i ≡ t
      → Step nthreads s (record s { pc = update s.pc t (stealing (i + 1)) })
  steal_abort :
      (t i : ℕ) → t < nthreads → s.pc t ≡ stealing i → i < nthreads → i ≢ t → Step nthreads s s
  steal_empty :
      (t i : ℕ)
      → t < nthreads
      → s.pc t ≡ stealing i
      → i < nthreads
      → i ≢ t
      → Step nthreads s (record s { pc = update s.pc t (stealing (i + 1)) })
  steal_item :
      (t i k : ℕ) (rest : List ℕ)
      → t < nthreads
      → s.pc t ≡ stealing i
      → i < nthreads
      → i ≢ t
      → s.queue i ≡ k ∷ rest
      → Step nthreads s
          (record s { queue = update s.queue i rest; pc = update s.pc t (printing k) })
  none_stolen :
      (t i : ℕ)
      → t < nthreads
      → s.pc t ≡ stealing i
      → nthreads ≤ i
      → Step nthreads s (record s { pc = update s.pc t checking })
  go_on :
      (t : ℕ)
      → t < nthreads
      → s.pc t ≡ checking
      → s.done ≡ false
      → Step nthreads s (record s { pc = update s.pc t own_queue })
  leave :
      (t : ℕ)
      → t < nthreads
      → s.pc t ≡ checking
      → s.done ≡ true
      → Step nthreads s (record s { pc = update s.pc t returned })
  print_task :
      (t k : ℕ)
      → t < nthreads
      → s.pc t ≡ printing k
      → Step nthreads s (record s { printed = k ∷ s.printed; pc = update s.pc t joining })
  join_task :
      (t : ℕ)
      → t < nthreads
      → s.pc t ≡ joining
      → Step nthreads s (record s {
        join_count = (join_work s.join_count done_work).0;
        pc = update s.pc t (next_work (join_work s.join_count done_work).1);
      })
  done_task :
      (t : ℕ)
      → t < nthreads
      → s.pc t ≡ finishing
      → Step nthreads s (record s { done = true; pc = update s.pc t own_queue })

-- the queue of thread `i` after the pushes of `main`
abbrev pub filled : ℕ → ℕ → List ℕ
filled zero i = []
filled (suc nprints) i = filled nprints i ++ ((1000 * i + nprints) ∷ [])

-- `main` up to the creation of the threads
abbrev pub start : ℕ → ℕ → System
start nthreads nprints = record {
  queue = filled nprints;
  pc = λ t. own_queue;
  join_count = pos (nthreads * nprints);
  done = false;
  printed = [];
}

pub data Reach (nthreads nprints : ℕ) : System → Type 0 where
  here : Reach nthreads nprints (start nthreads nprints)
  next : {s t : System} → Reach nthreads nprints s → Step nthreads s t → Reach nthreads nprints t
