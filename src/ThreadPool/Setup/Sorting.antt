-- ===== src/ThreadPool/Setup/Sorting.antt =====
-- The threads that `qsort_mt` starts and tells to terminate, and to whom it gives the array.
use linux_summer.Prelude.{
  ℕ, zero, suc, ◌+◌, ◌≤◌, ◌<◌, ◌≡◌, refl, ap, ◌⊎◌, inl, inr, Bool, true, false, List, [], ◌∷◌, ◌++◌,
  tally, tally-append, total, ltb, if◌then◌else◌, Bool-cases, arith,
}
use linux_summer.ThreadPool.Setup.{
  mtx_al, pool, mtx_st, cond_st, thread, Call, acquire, release, terminate, hand_out, qsort,
  Answers, set_slot, set_up, take_down, finish, qsort_mt,
}

-- the threads and the sorting among the calls, by any weights
abbrev pub weight : (ℕ → ℕ) → (ℕ → ℕ) → ℕ → ℕ → Call → ℕ
weight starts ends x y (acquire (thread i)) = starts i
weight starts ends x y (acquire mtx_al) = 0
weight starts ends x y (acquire pool) = 0
weight starts ends x y (acquire (mtx_st i)) = 0
weight starts ends x y (acquire (cond_st i)) = 0
weight starts ends x y (release r) = 0
weight starts ends x y (terminate i) = ends i
weight starts ends x y hand_out = x
weight starts ends x y qsort = y

abbrev pub sum : (ℕ → ℕ) → ℕ → ℕ
sum f n = total f (λ k. k) n

module _ (starts ends : ℕ → ℕ) (x y : ℕ) where
  abbrev V : Call → ℕ
  V = weight starts ends x y

  sum_next : (f : ℕ → ℕ) (i : ℕ) → sum f (i + 1) ≡ sum f i + f i
  sum_next f i = ap (sum f) {x = i + 1} {y = suc i} (omega arith)

  set_slot-tally :
      (mutex_fine cond_fine created : Bool) (i : ℕ) (rest : List Call × Bool × ℕ)
      → tally V rest.0 + sum starts (i + 1) ≡ sum starts rest.2
      → tally V (set_slot mutex_fine cond_fine created i rest).0 + sum starts i
        ≡ sum starts (set_slot mutex_fine cond_fine created i rest).2
  unfolding set_slot
  set_slot-tally false cond_fine created i rest e = omega arith
  set_slot-tally true false created i rest e = omega arith
  set_slot-tally true true false i rest e = omega arith
  set_slot-tally true true true i (calls, fine, last) e = omega (arith, e, sum_next starts i)

  set_up-tally :
      (answers : Answers) (left islot : ℕ)
      → tally V (set_up answers left islot).0 + sum starts islot
        ≡ sum starts (set_up answers left islot).2
  unfolding set_up
  set_up-tally answers zero islot = omega arith
  set_up-tally answers (suc left) islot =
      set_slot-tally (answers.mutex_init islot) (answers.cond_init islot)
        (answers.thread_create islot) islot (set_up answers left (islot + 1))
        (set_up-tally answers left (islot + 1))

  join-tally : (left i : ℕ) → tally V (take_down false left i) ≡ 0
  unfolding take_down
  join-tally zero i = refl
  join-tally (suc left) i = omega (arith, join-tally left (i + 1))

  end-tally : (left i : ℕ) → tally V (take_down true left i) + sum ends i ≡ sum ends (i + left)
  unfolding take_down
  end-tally zero i =
      let end : sum ends i ≡ sum ends (i + 0) = ap (sum ends) {x = i} {y = i + 0} (omega arith) in
      omega (arith, end)
  end-tally (suc left) i =
      let end : sum ends (i + 1 + left) ≡ sum ends (i + suc left) =
        ap (sum ends) {x = i + 1 + left} {y = i + suc left} (omega arith) in
      omega (arith, end-tally left (i + 1), sum_next ends i, end)

  finish-tally :
      (fine : Bool) (islot : ℕ)
      → tally V (finish fine islot) ≡ (if fine then x else (y + sum ends islot))
  unfolding finish
  finish-tally true islot = omega (
    arith,
    tally-append V (take_down false islot 0) (release pool ∷ (release mtx_al ∷ [])),
    join-tally islot 0,
  )
  finish-tally false islot =
      let end : sum ends (0 + islot) ≡ sum ends islot =
        ap (sum ends) {x = 0 + islot} {y = islot} (omega arith) in
      omega (
        arith,
        tally-append V (take_down true islot 0) (release pool ∷ (release mtx_al ∷ (qsort ∷ []))),
        end-tally islot 0,
        end,
      )

  with_pool-tally :
      (answers : Answers) (maxthreads : ℕ)
      → tally V (
          (set_up answers maxthreads 0).0
          ++ finish (set_up answers maxthreads 0).1 (set_up answers maxthreads 0).2)
        ≡ sum starts (set_up answers maxthreads 0).2
          + (if (set_up answers maxthreads 0).1
              then x
              else (y + sum ends (set_up answers maxthreads 0).2))
  with_pool-tally answers maxthreads =
      let r = set_up answers maxthreads 0 in
      omega (
        arith,
        tally-append V r.0 (finish r.1 r.2),
        set_up-tally answers maxthreads 0,
        finish-tally r.1 r.2,
      )

-- Without a failure all slots are set up, and with one not all.
set_slot-last :
    (mutex_fine cond_fine created : Bool) (i left : ℕ) (rest : List Call × Bool × ℕ)
    → (if rest.1 then rest.2 ≡ i + 1 + left else (rest.2 < i + 1 + left))
    → let r = set_slot mutex_fine cond_fine created i rest in
      if r.1 then r.2 ≡ i + suc left else (r.2 < i + suc left)
unfolding set_slot
set_slot-last false cond_fine created i left rest h = omega arith
set_slot-last true false created i left rest h = omega arith
set_slot-last true true false i left rest h = omega arith
set_slot-last true true true i left (calls, true, last) h = omega (arith, h)
set_slot-last true true true i left (calls, false, last) h = omega (arith, h)

set_up-last :
    (answers : Answers) (left islot : ℕ)
    → if (set_up answers left islot).1
      then (set_up answers left islot).2 ≡ islot + left
      else ((set_up answers left islot).2 < islot + left)
unfolding set_up
set_up-last answers zero islot = omega arith
set_up-last answers (suc left) islot =
    set_slot-last (answers.mutex_init islot) (answers.cond_init islot) (answers.thread_create islot)
      islot left (set_up answers left (islot + 1)) (set_up-last answers left (islot + 1))

outcome :
    (maxthreads : ℕ) (fine : Bool) (last : ℕ) (t : (ℕ → ℕ) → (ℕ → ℕ) → ℕ → ℕ → ℕ)
    → ((starts ends : ℕ → ℕ) (x y : ℕ)
        → t starts ends x y ≡ sum starts last + (if fine then x else (y + sum ends last)))
    → (if fine then last ≡ 0 + maxthreads else (last < 0 + maxthreads))
    → ((starts ends : ℕ → ℕ) (x y : ℕ) → t starts ends x y ≡ x + sum starts maxthreads)
      ⊎ ((m : ℕ) × (m ≤ maxthreads)
          × ((starts ends : ℕ → ℕ) (x y : ℕ) → t starts ends x y ≡ y + sum starts m + sum ends m))
outcome maxthreads true last t h e = inl (λ starts ends x y.
    let end : sum starts last ≡ sum starts maxthreads =
      ap (sum starts) {x = last} {y = maxthreads} (omega (arith, e)) in
    omega (arith, h starts ends x y, end))
outcome maxthreads false last t h e =
    inr (last, omega (arith, e), λ starts ends x y. omega (arith, h starts ends x y))

-- Up to the loop over the pool nothing fails.
with_pool :
    (answers : Answers) (n forkelem maxthreads : ℕ)
    → ltb n forkelem ≡ false
    → answers.al_init ≡ true
    → answers.pool_calloc ≡ true
    → qsort_mt answers n forkelem maxthreads
      ≡ acquire mtx_al
        ∷ (acquire pool
            ∷ ((set_up answers maxthreads 0).0
                ++ finish (set_up answers maxthreads 0).1 (set_up answers maxthreads 0).2))
unfolding qsort_mt
with_pool answers n forkelem maxthreads e a c = simp (e, a, c)

-- `qsort_mt`, whatever the answers of the system and the numbers. Either it starts the threads of the whole
-- pool, once each, tells none to terminate, and hands the array out once; or it starts the first of them, as
-- many as it could, tells each of these to terminate once, and calls `qsort` once. The weights may be any.
pub qsort_mt-tally :
    (answers : Answers) (n forkelem maxthreads : ℕ)
    → ((starts ends : ℕ → ℕ) (x y : ℕ)
        → tally (weight starts ends x y) (qsort_mt answers n forkelem maxthreads)
          ≡ x + sum starts maxthreads)
      ⊎ ((m : ℕ) × (m ≤ maxthreads)
          × ((starts ends : ℕ → ℕ) (x y : ℕ)
              → tally (weight starts ends x y) (qsort_mt answers n forkelem maxthreads)
                ≡ y + sum starts m + sum ends m))
unfolding qsort_mt
qsort_mt-tally answers n forkelem maxthreads = elim (Bool-cases (ltb n forkelem)) [
  | inl e ↦ rw e (inr (0, omega arith, λ starts ends x y. omega arith))
  | inr e ↦ elim (Bool-cases answers.al_init) [
    | inr a ↦ rw e (rw a (inr (0, omega arith, λ starts ends x y. omega arith)))
    | inl a ↦ elim (Bool-cases answers.pool_calloc) [
      | inr c ↦ rw e (rw a (rw c (inr (0, omega arith, λ starts ends x y. omega arith))))
      | inl c ↦
          (let r = set_up answers maxthreads 0 in
            outcome maxthreads r.1 r.2
              (λ starts ends x y.
                tally (weight starts ends x y) (qsort_mt answers n forkelem maxthreads))
              (λ starts ends x y.
                let calls = with_pool answers n forkelem maxthreads e a c in
                omega (
                  arith,
                  ap (tally (weight starts ends x y)) calls,
                  with_pool-tally starts ends x y answers maxthreads,
                ))
              (set_up-last answers maxthreads 0))
    ]
  ]
]
