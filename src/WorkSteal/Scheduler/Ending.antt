-- ===== src/WorkSteal/Scheduler/Ending.antt =====
-- When `done` is set: all is printed, each payload once.
use linux_summer.Prelude.{
  ℕ, zero, suc, ◌+◌, ◌*◌, ◌≤◌, ◌<◌, ◌≡◌, refl, sym, ap, subst, ◌∙◌, ◌⊎◌, inl, inr, ◌==◌, ltb,
  if◌then◌else◌, Bool, true, false, one_if, List, [], ◌∷◌, update, one, times, tally, tally-append,
  tally_zero, total, total-update, total_zero, le-total, arith,
}
use linux_summer.Prelude.Int.{pos}
use linux_summer.WorkSteal.Join.{join_work}
use linux_summer.WorkSteal.Scheduler.{
  Pc, own_queue, stealing, checking, printing, joining, finishing, returned, System, done_work,
  next_work, Step, take_item, take_empty, skip_self, steal_abort, steal_empty, steal_item,
  none_stolen, go_on, leave, print_task, join_task, done_task, filled, start, Reach, here, next,
}
use linux_summer.WorkSteal.Scheduler.Held.{carried, joins_soon, ends_soon, held, Reach-held}

-- `left` joins are to come, and the last one runs `done_task`.
record Counts (n m : ℕ) (s : System) (left : ℕ) : Type 0 where
  pub joins : s.join_count ≡ pos left
  pub sum : tally one s.printed + left ≡ m + total joins_soon s.pc n
  pub ends : total ends_soon s.pc n + one_if s.done ≡ one_if (left == 0)

-- A step of thread `t` that changes none of the counts.
quiet :
    (n m : ℕ) (s : System) (q : ℕ → List ℕ) (t : ℕ) (p : Pc) (left : ℕ)
    → t < n
    → joins_soon p ≡ joins_soon (s.pc t)
    → ends_soon p ≡ ends_soon (s.pc t)
    → Counts n m s left
    → Counts n m (record s { queue = q; pc = update s.pc t p }) left
quiet n m s q t p left lt ej ee c = record {
  joins = c.joins;
  sum = omega (arith, c.sum, total-update joins_soon s.pc t n p lt);
  ends = omega (arith, c.ends, total-update ends_soon s.pc t n p lt);
}

-- A join, of those that are left.
joined :
    (n m : ℕ) (s : System) (t left : ℕ)
    → t < n
    → s.pc t ≡ joining
    → Counts n m s (suc left)
    → Counts n m
        (record s {
          join_count = (join_work s.join_count done_work).0;
          pc = update s.pc t (next_work (join_work s.join_count done_work).1);
        })
        left
unfolding join_work
joined n m s t left lt e c =
    subst
      (λ z.
        Counts n m
          (record s {
            join_count = (join_work z done_work).0;
            pc = update s.pc t (next_work (join_work z done_work).1);
          })
          left)
      (sym c.joins)
      (record {
        joins = ground arith;
        sum =
            omega
              (arith, c.sum, total-update joins_soon s.pc t n p lt, ap joins_soon e, quiet_next);
        ends =
            ground (arith, c.ends, total-update ends_soon s.pc t n p lt, ap ends_soon e, last_next);
      })
  where
    p : Pc
    p = next_work (join_work (pos (suc left)) done_work).1

    quiet_next : joins_soon p ≡ 0
    quiet_next = ground arith

    last_next : ends_soon p ≡ one_if (left == 0)
    last_next = ground arith

some_left :
    (n m : ℕ) (s : System) (t left : ℕ)
    → t < n
    → s.pc t ≡ joining
    → held n one s ≡ m
    → Counts n m s left
    → (k : ℕ) × (left ≡ suc k)
some_left n m s t zero lt e h c =
    absurd (omega (arith, h, c.sum, le-total joins_soon s.pc t n lt, ap joins_soon e))
some_left n m s t (suc k) lt e h c = (k, refl)

Step-Counts :
    {n : ℕ} {s s' : System} (m left : ℕ)
    → Step n s s'
    → held n one s ≡ m
    → Counts n m s left
    → (left' : ℕ) × Counts n m s' left'
Step-Counts {n} {s = s} m left (take_item t k rest lt e q) h c = (
  left,
  quiet n m s (update s.queue t rest) t (printing k) left lt (sym (ap joins_soon e))
      (sym (ap ends_soon e)) c,
)
Step-Counts {n} {s = s} m left (take_empty t lt e) h c = (
  left,
  quiet n m s s.queue t (stealing 0) left lt (sym (ap joins_soon e)) (sym (ap ends_soon e)) c,
)
Step-Counts {n} {s = s} m left (skip_self t i lt e li same) h c = (
  left,
  quiet n m s s.queue t (stealing (i + 1)) left lt (sym (ap joins_soon e)) (sym (ap ends_soon e)) c,
)
Step-Counts m left (steal_abort t i lt e li other) h c = (left, c)
Step-Counts {n} {s = s} m left (steal_empty t i lt e li other) h c = (
  left,
  quiet n m s s.queue t (stealing (i + 1)) left lt (sym (ap joins_soon e)) (sym (ap ends_soon e)) c,
)
Step-Counts {n} {s = s} m left (steal_item t i k rest lt e li other q) h c = (
  left,
  quiet n m s (update s.queue i rest) t (printing k) left lt (sym (ap joins_soon e))
      (sym (ap ends_soon e)) c,
)
Step-Counts {n} {s = s} m left (none_stolen t i lt e le) h c =
    (left, quiet n m s s.queue t checking left lt (sym (ap joins_soon e)) (sym (ap ends_soon e)) c)
Step-Counts {n} {s = s} m left (go_on t lt e d) h c =
    (left, quiet n m s s.queue t own_queue left lt (sym (ap joins_soon e)) (sym (ap ends_soon e)) c)
Step-Counts {n} {s = s} m left (leave t lt e d) h c =
    (left, quiet n m s s.queue t returned left lt (sym (ap joins_soon e)) (sym (ap ends_soon e)) c)
Step-Counts {n} {s = s} m left (print_task t k lt e) h c = (
  left,
  record {
    joins = c.joins;
    sum = omega (arith, c.sum, total-update joins_soon s.pc t n joining lt, ap joins_soon e);
    ends = omega (arith, c.ends, total-update ends_soon s.pc t n joining lt, ap ends_soon e);
  },
)
Step-Counts {n} {s = s} m left (join_task t lt e) h c =
    let (k, ek) = some_left n m s t left lt e h c in
    (k, joined n m s t k lt e (subst (Counts n m s) ek c))
Step-Counts {n} {s = s} m left (done_task t lt e) h c =
    let one_ends = le-total ends_soon s.pc t n lt in
    (
      left,
      record {
        joins = c.joins;
        sum = omega (arith, c.sum, total-update joins_soon s.pc t n own_queue lt, ap joins_soon e);
        ends =
            ground (
              arith,
              c.ends,
              total-update ends_soon s.pc t n own_queue lt,
              ap ends_soon e,
              one_ends,
            );
      },
    )

start-Counts :
    (n nprints : ℕ) → 0 < n * nprints → Counts n (n * nprints) (start n nprints) (n * nprints)
start-Counts n nprints pos_m = record {
  joins = refl;
  sum = omega (arith, quiet_start n);
  ends = ground (arith, busy_start n);
}
  where
    quiet_start : (k : ℕ) → total joins_soon (λ t. own_queue) k ≡ 0
    quiet_start zero = refl
    quiet_start (suc k) = omega (arith, quiet_start k)

    busy_start : (k : ℕ) → total ends_soon (λ t. own_queue) k ≡ 0
    busy_start zero = refl
    busy_start (suc k) = omega (arith, busy_start k)

total-filled : (nprints n : ℕ) → total (tally one) (filled nprints) n ≡ n * nprints
total-filled nprints zero = omega arith
total-filled nprints (suc n) = grind (arith, total-filled nprints n, one_filled nprints)
  where
    one_filled : (k : ℕ) → tally one (filled k n) ≡ k
    one_filled zero = refl
    one_filled (suc k) =
        omega (arith, tally-append one (filled k n) ((1000 * n + k) ∷ []), one_filled k)

Reach-Counts :
    {n nprints : ℕ} {s : System}
    → 0 < n * nprints
    → Reach n nprints s
    → (left : ℕ) × Counts n (n * nprints) s left
Reach-Counts {n} {nprints} some here = (n * nprints, start-Counts n nprints some)
Reach-Counts {n} {nprints} some (next r st) =
    let (left, c) = Reach-Counts some r in
    Step-Counts (n * nprints) left st (Reach-held r one ∙ total-filled nprints n) c

carried_zero : (W : ℕ → ℕ) (p : Pc) → carried one p ≡ 0 → carried W p ≡ 0
carried_zero W (printing k) e = absurd (omega (arith, e))
carried_zero W own_queue e = refl
carried_zero W (stealing i) e = refl
carried_zero W checking e = refl
carried_zero W joining e = refl
carried_zero W finishing e = refl
carried_zero W returned e = refl

filled_once :
    (i j nprints t : ℕ)
    → j < 1000
    → nprints ≤ 1000
    → times (1000 * i + j) (filled nprints t) ≡ (if t == i then one_if (ltb j nprints) else 0)
filled_once i j zero t lj le = ground arith
filled_once i j (suc k) t lj le = ground (
  arith,
  tally-append (λ v. one_if (v == 1000 * i + j)) (filled k t) ((1000 * t + k) ∷ []),
  filled_once i j k t lj (omega arith),
)

total_once :
    (i j nprints n : ℕ)
    → j < nprints
    → nprints ≤ 1000
    → total (times (1000 * i + j)) (filled nprints) n ≡ one_if (ltb i n)
total_once i j nprints zero lj le = ground arith
total_once i j nprints (suc n) lj le =
    ground (arith, total_once i j nprints n lj le, filled_once i j nprints n (omega arith) le)

abbrev gone : Pc → Bool
gone returned = true
gone own_queue = false
gone (stealing i) = false
gone checking = false
gone (printing k) = false
gone joining = false
gone finishing = false

-- A thread returns only once `done` is set.
Step-gone :
    {n : ℕ} {s s' : System}
    → Step n s s'
    → ((k : ℕ) → gone (s.pc k) ≡ true → s.done ≡ true)
    → (k : ℕ) → gone (s'.pc k) ≡ true
    → s'.done ≡ true
Step-gone (take_item t i rest lt e q) h k = ground (arith, h k)
Step-gone (take_empty t lt e) h k = ground (arith, h k)
Step-gone (skip_self t i lt e li same) h k = ground (arith, h k)
Step-gone (steal_abort t i lt e li other) h k = h k
Step-gone (steal_empty t i lt e li other) h k = ground (arith, h k)
Step-gone (steal_item t i j rest lt e li other q) h k = ground (arith, h k)
Step-gone (none_stolen t i lt e le) h k = ground (arith, h k)
Step-gone (go_on t lt e d) h k = ground (arith, h k)
Step-gone (leave t lt e d) h k = λ g. d
Step-gone (print_task t i lt e) h k = ground (arith, h k)
Step-gone {s = s} (join_task t lt e) h k = ground (arith, h k)
Step-gone (done_task t lt e) h k = λ g. refl

Reach-gone :
    {n nprints : ℕ} {s : System}
    → Reach n nprints s
    → (k : ℕ) → gone (s.pc k) ≡ true
    → s.done ≡ true
Reach-gone here k = λ g. absurd (ground (arith, g))
Reach-gone (next r st) k = Step-gone st (Reach-gone r) k

-- In every reachable state in which `done` is set or a thread has returned, each of the tasks of `main` has
-- been printed exactly once, no queue has an item and no thread has a task in its hands.
pub all_printed :
    {nthreads nprints : ℕ} {s : System}
    → 0 < nthreads * nprints
    → nprints ≤ 1000
    → Reach nthreads nprints s
    → (s.done ≡ true) ⊎ ((t : ℕ) × (s.pc t ≡ returned))
    → ((i j : ℕ) → i < nthreads → j < nprints → times (1000 * i + j) s.printed ≡ 1)
      × (total (tally one) s.queue nthreads ≡ 0)
      × (total (carried one) s.pc nthreads ≡ 0)
all_printed {nthreads} {nprints} {s} some le r o =
    let n = nthreads in
    let d : s.done ≡ true = elim o [ inl d ↦ d | inr (t, e) ↦ Reach-gone r t (ap gone e) ] in
    let (left, c) = Reach-Counts some r in
    let h = Reach-held r one ∙ total-filled nprints n in
    let last : left ≡ 0 = ground (arith, c.ends, d) in
    let queues : total (tally one) s.queue n ≡ 0 = omega (arith, h, c.sum, last) in
    let hands : total (carried one) s.pc n ≡ 0 = omega (arith, h, c.sum, last) in
    (
      λ i j li lj.
          let W : ℕ → ℕ = λ v. one_if (v == 1000 * i + j) in
          ground (
            arith,
            Reach-held r W,
            total_zero (tally one) (tally W) s.queue n (tally_zero W) queues,
            total_zero (carried one) (carried W) s.pc n (carried_zero W) hands,
            total_once i j nprints n lj le,
          ),
      queues,
      hands,
    )
