-- ===== src/WorkSteal/Join.antt =====
-- `join_work` of hw3/work-steal.c: the tasks that a work item waits for count its `join_count` down.
-- The decrement is one atomic access, so calls by many threads come in some order.
use linux_summer.Prelude.{
  ℕ, zero, suc, ◌-◌, ◌≤◌, ◌≡◌, refl, Bool, false, ◌==◌, if◌then◌else◌, arith, List, [], ◌∷◌, ◌++◌,
}
use linux_summer.Prelude.Int.{ℤ, pos, negsuc, ◌-ℤ◌}

abbrev is_one : ℤ → Bool
is_one (pos n) = n == 1
is_one (negsuc n) = false

-- The new `join_count`, and the work item that the call returns, 0 for NULL.
unfoldable pub join_work : ℤ → ℕ → ℤ × ℕ
join_work old_join_count work = (old_join_count -ℤ pos 1, if is_one old_join_count then work else 0)

-- `k` calls on one work item: the `join_count` after them, and what they return in their order
pub joins : ℕ → ℤ → ℕ → ℤ × List ℕ
unfolding join_work
joins zero c work = (c, [])
joins (suc k) c work =
    let (c', result) = join_work c work in
    let (c'', results) = joins k c' work in (c'', result ∷ results)

abbrev pub nulls : ℕ → List ℕ
nulls zero = []
nulls (suc k) = 0 ∷ nulls k

early : (k n work : ℕ) → k ≤ n → joins k (pos (suc n)) work ≡ (pos (suc n - k), nulls k)
unfolding joins join_work
early zero n work le = ground arith
early (suc k) zero work le = absurd (omega arith)
early (suc k) (suc n) work le = ground (arith, early k n work (omega arith))

last : (n work : ℕ) → joins (suc n) (pos (suc n)) work ≡ (pos 0, nulls n ++ (work ∷ []))
unfolding joins join_work
last zero work = refl
last (suc n) work = ground (arith, last n work)

-- A work item that waits for n + 1 tasks: up to n calls of join_work return NULL and leave the
-- count of those to come, and of n + 1 calls the last one alone returns the item, with the count
-- then at 0.
pub joins_lem :
    (n work : ℕ)
    → ((k : ℕ) → k ≤ n → joins k (pos (suc n)) work ≡ (pos (suc n - k), nulls k))
      × (joins (suc n) (pos (suc n)) work ≡ (pos 0, nulls n ++ (work ∷ [])))
joins_lem n work = (λ k le. early k n work le, last n work)
