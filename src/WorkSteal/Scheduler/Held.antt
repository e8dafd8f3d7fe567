-- ===== src/WorkSteal/Scheduler/Held.antt =====
-- The tasks that are in a queue, in the hands of a thread or printed, by any weight of a payload.
use linux_summer.Prelude.{
  ℕ, zero, suc, ◌+◌, ◌<◌, ◌≡◌, refl, ap, ◌∙◌, List, [], ◌∷◌, update, tally, tally-append, total,
  total-update, arith,
}
use linux_summer.WorkSteal.Join.{join_work}
use linux_summer.WorkSteal.Scheduler.{
  Pc, own_queue, stealing, checking, printing, joining, finishing, returned, System, done_work,
  next_work, Step, take_item, take_empty, skip_self, steal_abort, steal_empty, steal_item,
  none_stolen, go_on, leave, print_task, join_task, done_task, filled, Reach, here, next,
}

-- the task that a thread has in its hands
abbrev pub carried : (ℕ → ℕ) → Pc → ℕ
carried W (printing k) = W k
carried W own_queue = 0
carried W (stealing i) = 0
carried W checking = 0
carried W joining = 0
carried W finishing = 0
carried W returned = 0

abbrev pub joins_soon : Pc → ℕ
joins_soon joining = 1
joins_soon own_queue = 0
joins_soon (stealing i) = 0
joins_soon checking = 0
joins_soon (printing k) = 0
joins_soon finishing = 0
joins_soon returned = 0

abbrev pub ends_soon : Pc → ℕ
ends_soon finishing = 1
ends_soon own_queue = 0
ends_soon (stealing i) = 0
ends_soon checking = 0
ends_soon (printing k) = 0
ends_soon joining = 0
ends_soon returned = 0

abbrev pub held : ℕ → (ℕ → ℕ) → System → ℕ
held n W s = total (tally W) s.queue n + total (carried W) s.pc n + tally W s.printed

take_conserves :
    (n : ℕ) (s : System) (t i k : ℕ) (rest : List ℕ) (W : ℕ → ℕ)
    → t < n
    → i < n
    → carried W (s.pc t) ≡ 0
    → tally W (s.queue i) ≡ W k + tally W rest
    → total (tally W) (update s.queue i rest) n + total (carried W) (update s.pc t (printing k)) n
      ≡ total (tally W) s.queue n + total (carried W) s.pc n
take_conserves n s t i k rest W lt li e q = omega (
  arith,
  total-update (tally W) s.queue i n rest li,
  total-update (carried W) s.pc t n (printing k) lt,
)

-- Whatever a payload weighs, nothing is lost or printed twice.
Step-held : {n : ℕ} {s s' : System} → Step n s s' → (W : ℕ → ℕ) → held n W s' ≡ held n W s
Step-held {n} {s = s} (take_item t k rest lt e q) W = omega (
  arith,
  take_conserves n s t t k rest W lt lt (ap (carried W) e)
      (ap (tally W) q ∙ tally-append W rest (k ∷ []) ∙ omega arith),
)
Step-held {n} {s = s} (take_empty t lt e) W =
    omega (arith, total-update (carried W) s.pc t n (stealing 0) lt, ap (carried W) e)
Step-held {n} {s = s} (skip_self t i lt e li same) W =
    omega (arith, total-update (carried W) s.pc t n (stealing (i + 1)) lt, ap (carried W) e)
Step-held (steal_abort t i lt e li other) W = refl
Step-held {n} {s = s} (steal_empty t i lt e li other) W =
    omega (arith, total-update (carried W) s.pc t n (stealing (i + 1)) lt, ap (carried W) e)
Step-held {n} {s = s} (steal_item t i k rest lt e li other q) W =
    omega (arith, take_conserves n s t i k rest W lt li (ap (carried W) e) (ap (tally W) q))
Step-held {n} {s = s} (none_stolen t i lt e le) W =
    omega (arith, total-update (carried W) s.pc t n checking lt, ap (carried W) e)
Step-held {n} {s = s} (go_on t lt e d) W =
    omega (arith, total-update (carried W) s.pc t n own_queue lt, ap (carried W) e)
Step-held {n} {s = s} (leave t lt e d) W =
    omega (arith, total-update (carried W) s.pc t n returned lt, ap (carried W) e)
Step-held {n} {s = s} (print_task t k lt e) W =
    omega (arith, total-update (carried W) s.pc t n joining lt, ap (carried W) e)
Step-held {n} {s = s} (join_task t lt e) W = omega (
  arith,
  total-update (carried W) s.pc t n (next_work (join_work s.join_count done_work).1) lt,
  ap (carried W) e,
  carries_nothing (join_work s.join_count done_work).1,
)
  where
    carries_nothing : (w : ℕ) → carried W (next_work w) ≡ 0
    carries_nothing w = ground arith
Step-held {n} {s = s} (done_task t lt e) W =
    omega (arith, total-update (carried W) s.pc t n own_queue lt, ap (carried W) e)

pub Reach-held :
    {n nprints : ℕ} {s : System}
    → Reach n nprints s
    → (W : ℕ → ℕ) → held n W s ≡ total (tally W) (filled nprints) n
Reach-held {n} {nprints} here W = omega (arith, nothing_carried n)
  where
    nothing_carried : (k : ℕ) → total (carried W) (λ t. own_queue) k ≡ 0
    nothing_carried zero = refl
    nothing_carried (suc k) = omega (arith, nothing_carried k)
Reach-held (next r st) W = Step-held st W ∙ Reach-held r W
