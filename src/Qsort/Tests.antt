-- ===== src/Qsort/Tests.antt =====
-- The quicksort at nine numbers.
use mathlib.Core.Option
use mathlib.Core.List.{Perm}
use linux_summer.Prelude.{
  ℕ, ◌*◌, ◌%◌, ◌≤◌, ◌<◌, ◌≡◌, refl, ◌⊎◌, List, [], ◌∷◌, map, some, true, false, arith,
}
use linux_summer.Prelude.Int.{is_neg, is_pos}
use linux_summer.Qsort.{
  Part, swap, vec_swap, med3, pivot, up_step, scan_up, down_step, scan_down, partition, sink,
  insert_from, sink_limited, insert_limited, int_elements, swap_ends, gather, split, qsort_algo,
}
use linux_summer.Qsort.Order.{Sorted}
use linux_summer.Qsort.Parts.{Sorts}
use linux_summer.Qsort.Correct.{qsort_algo-Sorts}
use linux_summer.Qsort.Lists.{slice}
use linux_summer.Qsort.Numbers.{
  num_compare, num_compare-near, num_compare-far, Number, compare_numbers, num_compare-Compares,
}
use linux_summer.Qsort.Pool.{Pool, Runs, start, further, work, whole}
use linux_summer.Qsort.Contract.{qsort_algo-Sorted, pool_sorts}

-- 0 4 8 3 7 2 6 1 5
abbrev numbers : ℕ → Number
numbers k = record { value = k * 4 % 9; small = omega arith }

num_compare-near_example : (is_neg (num_compare 3 5) ≡ true) × (is_pos (num_compare 3 5) ≡ false)
num_compare-near_example =
    num_compare-near 3 5 (omega arith) (omega arith) (omega arith) (omega arith)

num_compare-far_example :
    (is_neg (num_compare 3_000_000_000 0) ≡ true) × (is_pos (num_compare 0 3_000_000_000) ≡ true)
num_compare-far_example = num_compare-far 3_000_000_000 0 (omega arith) (omega arith)

qsort_algo-Sorts_example :
    Sorts
      (λ (x : Number). x.value)
      (λ b nl nr. true)
      numbers
      0
      9
      (qsort_algo compare_numbers 4 (λ b nl nr. true) 10 numbers 0 9)
qsort_algo-Sorts_example =
    qsort_algo-Sorts compare_numbers (λ (x : Number). x.value) num_compare-Compares 4
      (λ b nl nr. true) 10 numbers 0 9 (omega arith, omega arith) (omega arith)

qsort_algo-Sorted_example :
    (m' : ℕ → Number) × (qsort_algo compare_numbers 4 (λ b x y. false) 10 numbers 0 9
      ≡ some (m', []))
    × Sorted (λ (x : Number). x.value) m' 0 9
    × Perm (slice m' 0 9) (slice numbers 0 9)
    × ((k : ℕ) → (k < 0) ⊎ (9 ≤ k) → m' k ≡ numbers k)
qsort_algo-Sorted_example =
    qsort_algo-Sorted compare_numbers (λ (x : Number). x.value) num_compare-Compares 4 10 numbers 0
      9 (omega arith, omega arith) (omega arith)

nine_sorted :
    Option.map
      (λ (r : (ℕ → Number) × List Part). map (λ (x : Number). x.value) (slice r.0 0 9))
      (qsort_algo compare_numbers 4 (λ b x y. false) 10 numbers 0 9)
    ≡ some (0 ∷ (1 ∷ (2 ∷ (3 ∷ (4 ∷ (5 ∷ (6 ∷ (7 ∷ (8 ∷ [])))))))))
unfolding swap vec_swap med3 pivot up_step scan_up down_step scan_down partition sink insert_from
    sink_limited insert_limited int_elements swap_ends gather split qsort_algo num_compare
nine_sorted = refl

abbrev memory_of : Option.Option ((ℕ → Number) × List Part) → ℕ → Number
memory_of Option.none = numbers
memory_of (some r) = r.0

abbrev first_run : Option.Option ((ℕ → Number) × List Part)
first_run = qsort_algo compare_numbers 4 (λ b nl nr. true) 10 numbers 0 9

abbrev second_run : Option.Option ((ℕ → Number) × List Part)
second_run = qsort_algo compare_numbers 4 (λ b nl nr. true) 6 (memory_of first_run) 0 5

abbrev finished : Pool Number
finished = record { mem = memory_of second_run; waiting = [] }

-- One call sorts the part above the pivot and gives the other away, a second call sorts that.
finished_reached : Runs compare_numbers 4 (λ b nl nr. true) (whole numbers 0 9) finished
unfolding swap vec_swap med3 pivot up_step scan_up down_step scan_down partition sink insert_from
    sink_limited insert_limited int_elements swap_ends gather split qsort_algo num_compare
finished_reached =
    further
      (further start (work [] [] (0, 9) {m = memory_of first_run} {given = (0, 5) ∷ []} refl refl))
      (work [] [] (0, 5) {m = memory_of second_run} {given = []} refl refl)

pool_sorts_example :
    Sorted (λ (x : Number). x.value) finished.mem 0 9
    × Perm (slice finished.mem 0 9) (slice numbers 0 9)
    × ((k : ℕ) → (k < 0) ⊎ (9 ≤ k) → finished.mem k ≡ numbers k)
pool_sorts_example =
    pool_sorts compare_numbers (λ (x : Number). x.value) num_compare-Compares 4 (λ b nl nr. true)
      numbers 0 9 finished (omega arith, omega arith) finished_reached refl
