-- ===== src/ThreadPool/Setup/Balance.antt =====
-- What `qsort_mt` acquires and releases.
use linux_summer.Prelude.{
  ℕ, zero, suc, ◌+◌, ◌-◌, ◌≤◌, ◌≡◌, refl, ap, subst, ◌∙◌, inl, inr, Bool, true, false, List, [],
  ◌∷◌, ◌++◌, ltb, Bool-cases, arith,
}
use linux_summer.ThreadPool.Setup.{
  Resource, mtx_al, pool, mtx_st, cond_st, thread, Call, acquire, release, terminate, hand_out,
  qsort, Answers, set_slot, set_up, take_down, finish, qsort_mt,
}

-- From what weighs `h` all is released in the end, and at no time more than there is.
abbrev pub Balanced : (Resource → ℕ) → ℕ → List Call → Type 0
Balanced W h [] = h ≡ 0
Balanced W h (acquire r ∷ calls) = Balanced W (h + W r) calls
Balanced W h (release r ∷ calls) = (W r ≤ h) × Balanced W (h - W r) calls
Balanced W h (terminate i ∷ calls) = Balanced W h calls
Balanced W h (hand_out ∷ calls) = Balanced W h calls
Balanced W h (qsort ∷ calls) = Balanced W h calls

module _ (W : Resource → ℕ) where
  abbrev slot : ℕ → ℕ
  slot i = W (mtx_st i) + W (cond_st i) + W (thread i)

  abbrev below : ℕ → ℕ
  below zero = 0
  below (suc n) = below n + slot n

  -- of the slots that are left, from `i` on
  abbrev above : ℕ → ℕ → ℕ
  above zero i = 0
  above (suc left) i = slot i + above left (i + 1)

  below_next : (i : ℕ) → below (i + 1) ≡ below i + slot i
  below_next i = ap below {x = i + 1} {y = suc i} (omega arith)

  above-below : (left i : ℕ) → below i + above left i ≡ below (i + left)
  above-below zero i =
      let end : below i ≡ below (i + 0) = ap below {x = i} {y = i + 0} (omega arith) in
      omega (arith, end)
  above-below (suc left) i =
      let end : below (i + 1 + left) ≡ below (i + suc left) =
        ap below {x = i + 1 + left} {y = i + suc left} (omega arith) in
      omega (arith, above-below left (i + 1), end, below_next i)

  weighs : (g h : ℕ) (calls : List Call) → g ≡ h → Balanced W g calls → Balanced W h calls
  weighs g h calls e b = subst (λ z. Balanced W z calls) e b

  set_slot-Balanced :
      (mutex_fine cond_fine created : Bool) (i h : ℕ) (rest : List Call × Bool × ℕ)
      (tail : List Call)
      → (Balanced W (h + below rest.2) tail → Balanced W (h + below (i + 1)) (rest.0 ++ tail))
      → Balanced W (h + below (set_slot mutex_fine cond_fine created i rest).2) tail
      → Balanced W (h + below i) ((set_slot mutex_fine cond_fine created i rest).0 ++ tail)
  unfolding set_slot
  set_slot-Balanced false cond_fine created i h rest tail f b = b
  set_slot-Balanced true false created i h rest tail f b =
      let m = W (mtx_st i) in
      (omega arith, weighs (h + below i) (h + below i + m - m) tail (omega arith) b)
  set_slot-Balanced true true false i h rest tail f b =
      let m = W (mtx_st i) in
      let c = W (cond_st i) in
      (
        omega arith,
        (omega arith, weighs (h + below i) (h + below i + m + c - m - c) tail (omega arith) b),
      )
  set_slot-Balanced true true true i h (calls, fine, last) tail f b =
      weighs (h + below (i + 1)) (h + below i + W (mtx_st i) + W (cond_st i) + W (thread i))
        (calls ++ tail) (omega (arith, below_next i)) (f b)

  set_up-Balanced :
      (answers : Answers) (left islot h : ℕ) (tail : List Call)
      → Balanced W (h + below (set_up answers left islot).2) tail
      → Balanced W (h + below islot) ((set_up answers left islot).0 ++ tail)
  unfolding set_up
  set_up-Balanced answers zero islot h tail b = b
  set_up-Balanced answers (suc left) islot h tail b =
      set_slot-Balanced (answers.mutex_init islot) (answers.cond_init islot)
        (answers.thread_create islot) islot h (set_up answers left (islot + 1)) tail
        (set_up-Balanced answers left (islot + 1) h tail) b

  take_down-Balanced :
      (bailout : Bool) (left i h : ℕ) (tail : List Call)
      → Balanced W h tail
      → Balanced W (h + above left i) (take_down bailout left i ++ tail)
  unfolding take_down
  take_down-Balanced bailout zero i h tail b = weighs h (h + 0) tail (omega arith) b
  take_down-Balanced bailout (suc left) i h tail b = released bailout (
      weighs (h + above left (i + 1))
        (h + (slot i + above left (i + 1)) - W (thread i) - W (mtx_st i) - W (cond_st i))
        (take_down bailout left (i + 1) ++ tail) (omega arith)
        (take_down-Balanced bailout left (i + 1) h tail b))
    where
      released :
          (bailout : Bool)
          → Balanced W
              (h + (slot i + above left (i + 1)) - W (thread i) - W (mtx_st i) - W (cond_st i))
              (take_down bailout left (i + 1) ++ tail)
          → Balanced W (h + above (suc left) i) (take_down bailout (suc left) i ++ tail)
      released true r = (omega arith, (omega arith, (omega arith, r)))
      released false r = (omega arith, (omega arith, (omega arith, r)))

  finish-Balanced :
      (fine : Bool) (islot : ℕ) → Balanced W (W mtx_al + W pool + below islot) (finish fine islot)
  unfolding finish
  finish-Balanced true islot =
      let all : below 0 + above islot 0 ≡ below islot =
        above-below islot 0 ∙ ap below {x = 0 + islot} {y = islot} (omega arith) in
      let held = W mtx_al + W pool in
      weighs (held + above islot 0) (held + below islot) (finish true islot) (omega (arith, all)) (
        take_down-Balanced false islot 0 held (release pool ∷ (release mtx_al ∷ []))
          (omega arith, (omega arith, omega arith)))
  finish-Balanced false islot =
      let all : below 0 + above islot 0 ≡ below islot =
        above-below islot 0 ∙ ap below {x = 0 + islot} {y = islot} (omega arith) in
      let held = W mtx_al + W pool in
      weighs (held + above islot 0) (held + below islot) (finish false islot) (omega (arith, all)) (
        take_down-Balanced true islot 0 held (release pool ∷ (release mtx_al ∷ (qsort ∷ [])))
          (omega arith, (omega arith, omega arith)))

  -- `qsort_mt`, whatever the answers of the system and the numbers: the calls only release what they have
  -- acquired before and not released since, and in the end nothing that they have acquired is left. Each
  -- resource may have any weight.
  pub qsort_mt-Balanced :
      (answers : Answers) (n forkelem maxthreads : ℕ)
      → Balanced W 0 (qsort_mt answers n forkelem maxthreads)
  unfolding qsort_mt
  qsort_mt-Balanced answers n forkelem maxthreads = elim (Bool-cases (ltb n forkelem)) [
    | inl e ↦ rw e refl
    | inr e ↦ elim (Bool-cases answers.al_init) [
      | inr a ↦ rw e (rw a refl)
      | inl a ↦ elim (Bool-cases answers.pool_calloc) [
        | inr c ↦ rw e (rw a (rw c (omega arith, omega arith)))
        | inl c ↦ rw e (
            rw a (
              rw c (
                let last = set_up answers maxthreads 0 in
                weighs (W mtx_al + W pool + below 0) (0 + W mtx_al + W pool)
                  (last.0 ++ finish last.1 last.2) (omega arith)
                  (set_up-Balanced answers maxthreads 0 (W mtx_al + W pool) (finish last.1 last.2)
                    (finish-Balanced last.1 last.2)))))
      ]
    ]
  ]
