-- ===== src/ThreadPool/Setup/Tests.antt =====
-- A pool of two threads of which the second is not to be had.
use linux_summer.Prelude.{ℕ, ◌+◌, ◌≤◌, ◌≡◌, refl, ◌==◌, ◌⊎◌, true, [], ◌∷◌, tally}
use linux_summer.ThreadPool.Setup.{
  mtx_al, pool, mtx_st, cond_st, thread, acquire, release, terminate, qsort, Answers, qsort_mt,
}
use linux_summer.ThreadPool.Setup.Balance.{Balanced, qsort_mt-Balanced}
use linux_summer.ThreadPool.Setup.Sorting.{weight, sum, qsort_mt-tally}

abbrev one_thread : Answers
one_thread = record {
  al_init = true;
  pool_calloc = true;
  mutex_init = λ i. true;
  cond_init = λ i. true;
  thread_create = λ i. i == 0;
}

one_thread-calls :
    qsort_mt one_thread 100 10 2
    ≡ acquire mtx_al
      ∷ (acquire pool
          ∷ (acquire (mtx_st 0)
              ∷ (acquire (cond_st 0)
                  ∷ (acquire (thread 0)
                      ∷ (acquire (mtx_st 1)
                          ∷ (acquire (cond_st 1)
                              ∷ (release (mtx_st 1)
                                  ∷ (release (cond_st 1)
                                      ∷ (terminate 0
                                          ∷ (release (thread 0)
                                              ∷ (release (mtx_st 0)
                                                  ∷ (release (cond_st 0)
                                                      ∷ (release pool
                                                          ∷ (release mtx_al
                                                            ∷ (qsort ∷ [])))))))))))))))
unfolding qsort_mt
one_thread-calls = refl

qsort_mt-Balanced_example : Balanced (λ r. 1) 0 (qsort_mt one_thread 100 10 2)
qsort_mt-Balanced_example = qsort_mt-Balanced (λ r. 1) one_thread 100 10 2

qsort_mt-tally_example :
    ((starts ends : ℕ → ℕ) (x y : ℕ)
      → tally (weight starts ends x y) (qsort_mt one_thread 100 10 2) ≡ x + sum starts 2)
    ⊎ ((m : ℕ) × (m ≤ 2)
        × ((starts ends : ℕ → ℕ) (x y : ℕ)
            → tally (weight starts ends x y) (qsort_mt one_thread 100 10 2)
              ≡ y + sum starts m + sum ends m))
qsort_mt-tally_example = qsort_mt-tally one_thread 100 10 2
