-- ===== src/ThreadPool/Tests.antt =====
-- A pool of two threads: the first sorts alone, or gives a part away.
use linux_summer.Prelude.{◌≢◌, refl, inl, update, arith}
use linux_summer.ThreadPool.{
  ts_work, waiting, sorting, returned, System, wake, allocate, last, start, allocated, all_told,
  Reach, here, next,
}
use linux_summer.ThreadPool.Ending.{all_done}

abbrev awake : System
awake = record { st = (start 2).st; pc = update (λ k. waiting) 0 sorting; idlethreads = 1 }

awake_reached : Reach 2 awake
awake_reached = next here (wake 0 (omega arith) refl refl)

abbrev shared : System
shared = allocated awake 1

shared_reached : Reach 2 shared
shared_reached =
    next awake_reached
      (allocate 0 1 (omega arith) refl (omega arith) refl (λ k lt e. ground (arith, lt, e)))

abbrev told : System
told = record { st = all_told 2 awake.st 0; pc = update awake.pc 0 returned; idlethreads = 2 }

told_reached : Reach 2 told
told_reached = next awake_reached (last 0 (omega arith) refl refl)

all_done_example : (told.st 1 ≢ ts_work) × (told.pc 1 ≢ sorting)
all_done_example = all_done told_reached 1 (omega arith) (inl refl) 1 (omega arith)
