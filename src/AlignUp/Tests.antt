-- ===== src/AlignUp/Tests.antt =====
-- The theorems on hw1/align_up.c at concrete inputs.
use linux_summer.Prelude.{◌+◌, ◌-◌, ◌*◌, ◌/◌, ◌%◌, ◌≤◌, ◌<◌, ◌≡◌, refl, arith}
use linux_summer.AlignUp.{align_up, align_up-eq, align_up_lem}

align_up_runs : (align_up 13 8 ≡ 16) × (align_up 16 8 ≡ 16) × (align_up 13 6 ≡ 18)
unfolding align_up
align_up_runs = (refl, refl, refl)

align_up-eq_example : align_up 13 8 ≡ (13 + (8 - 1)) / 8 * 8
align_up-eq_example = align_up-eq 13 8 (omega arith) (omega arith) (omega arith)

align_up_lem_example : (align_up 13 6 % 6 ≡ 0) × (13 ≤ align_up 13 6) × (align_up 13 6 < 13 + 6)
align_up_lem_example = align_up_lem 13 6 (omega arith) (omega arith) (omega arith)
