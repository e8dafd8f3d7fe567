-- ===== src/WorkSteal/Scheduler/Tests.antt =====
-- Two threads with one task each; the first takes its own and steals the other.
use linux_summer.Prelude.{ℕ, ◌+◌, ◌*◌, ◌<◌, ◌≡◌, refl, inl, true, [], tally, times, total, arith}
use linux_summer.WorkSteal.Join.{join_work}
use linux_summer.WorkSteal.Scheduler.{
  System, take_item, take_empty, skip_self, steal_item, print_task, join_task, done_task, Reach,
  here, next,
}
use linux_summer.WorkSteal.Scheduler.Held.{carried}
use linux_summer.WorkSteal.Scheduler.Ending.{all_printed}

abbrev run : (s : System) × Reach 2 1 s × (s.done ≡ true)
unfolding join_work
run = (
  _,
  next
      (next
        (next
          (next
            (next
              (next
                (next
                  (next
                    (next (next here (take_item 0 0 [] (omega arith) refl refl))
                      (print_task 0 0 (omega arith) refl))
                    (join_task 0 (omega arith) refl))
                  (take_empty 0 (omega arith) refl))
                (skip_self 0 0 (omega arith) refl (omega arith) refl))
              (steal_item 0 1 1000 [] (omega arith) refl (omega arith) (omega arith) refl))
            (print_task 0 1000 (omega arith) refl))
          (join_task 0 (omega arith) refl))
        (done_task 0 (omega arith) refl))
      (take_empty 0 (omega arith) refl),
  refl,
)

all_printed_example :
    ((i j : ℕ) → i < 2 → j < 1 → times (1000 * i + j) run.0.printed ≡ 1)
    × (total (tally (λ k. 1)) run.0.queue 2 ≡ 0)
    × (total (carried (λ k. 1)) run.0.pc 2 ≡ 0)
all_printed_example = all_printed (omega arith) (omega arith) run.1 (inl run.2)
