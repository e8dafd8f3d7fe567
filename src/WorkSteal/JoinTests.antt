-- ===== src/WorkSteal/JoinTests.antt =====
-- Three calls of `join_work` on a work item that waits for three tasks.
use linux_summer.Prelude.{ℕ, suc, ◌-◌, ◌≤◌, ◌≡◌, [], ◌∷◌}
use linux_summer.Prelude.Int.{pos}
use linux_summer.WorkSteal.Join.{joins, nulls, joins_lem}

joins_lem_example :
    ((k : ℕ) → k ≤ 2 → joins k (pos 3) 7 ≡ (pos (suc 2 - k), nulls k))
    × (joins 3 (pos 3) 7 ≡ (pos 0, 0 ∷ (0 ∷ (7 ∷ []))))
joins_lem_example = joins_lem 2 7
