-- ===== src/IntTree/Tests.antt =====
-- The theorems on the set of integers at the set of 1, 2 and 3.
use linux_summer.Prelude.{
  ℕ, ◌+◌, ◌-◌, ◌^◌, ◌≡◌, ◌≢◌, refl, ◌==◌, if◌then◌else◌, not, arith, some, List, [], ◌∷◌, map,
}
use linux_summer.Prelude.Int.{ℤ, pos, negsuc, to_int}
use linux_summer.STree.{Tree}
use linux_summer.STree.Tests.{chain, chain-IsTree, chain-HintsTo}
use linux_summer.IntTree.{Ints, treeint_st_insert, treeint_st_find, treeint_st_remove}
use linux_summer.IntTree.Sets.{has, with_key, without}
use linux_summer.IntTree.Contract.{
  Holds, treeint_st_insert-Holds, treeint_st_remove-Holds, treeint_st_find-has,
}
use linux_summer.IntTree.Rows.{rows, printed}
use linux_summer.STree.Shape.{Shape, Below, inorder, tall}
use linux_summer.IntTree.Dump.{pre_order, level_order, treeint_st_dump, treeint_st_dump-Holds}

abbrev three : Ints
three = record { tree = chain; value = λ a. pos a }

abbrev one_two_three : List ℤ
one_two_three = pos 1 ∷ (pos 2 ∷ (pos 3 ∷ []))

abbrev at_4 : Tree → ℕ
at_4 s = 4

abbrev three_held : Holds three one_two_three 2
three_held = record {
  nodes = 1 ∷ (2 ∷ (3 ∷ []));
  tree = chain-IsTree;
  values = refl;
  small = (omega arith, (omega arith, (omega arith, tt)));
  ascending = ((refl, (refl, tt)), ((refl, tt), (tt, tt)));
  hints = chain-HintsTo;
}

treeint_st_insert-Holds_example :
    (t : Ints) × (treeint_st_insert at_4 5 three (pos 7)
      ≡ some (t, not (has (pos 7) one_two_three)))
    × Holds t
        (if has (pos 7) one_two_three then one_two_three else with_key (pos 7) one_two_three)
        6
treeint_st_insert-Holds_example =
    treeint_st_insert-Holds three one_two_three 2 three_held (pos 7) (omega arith) at_4 5
      (omega arith, refl) (omega arith) (omega arith)

treeint_st_remove-Holds_example :
    (t : Ints) × (treeint_st_remove 5 three (pos 2) ≡ some (t, has (pos 2) one_two_three))
    × Holds t (without (pos 2) one_two_three) 6
treeint_st_remove-Holds_example =
    treeint_st_remove-Holds three one_two_three 2 three_held (pos 2) (omega arith) 5 (omega arith)
      (omega arith)

treeint_st_find-has_example :
    (n : ℕ) × (treeint_st_find 4 three (pos 2) ≡ some n)
    × ((n == 0) ≡ not (has (pos 2) one_two_three))
    × (n ≢ 0 → pos n ≡ pos 2)
treeint_st_find-has_example =
    treeint_st_find-has three one_two_three 2 three_held (pos 2) (omega arith) 4 (omega arith)

treeint_st_dump-Holds_example :
    (treeint_st_dump 4 three pre_order ≡ some (map some one_two_three))
    × ((u : Shape) × Below three.tree 0 u three.tree.root
        × (map three.value (inorder u) ≡ one_two_three)
        × (treeint_st_dump 4 three level_order ≡ some (rows three.value (tall u) (u ∷ [])))
        × ((a : ℤ)
            → printed a (rows three.value (tall u) (u ∷ [])) ≡ printed a (map some one_two_three)))
treeint_st_dump-Holds_example =
    treeint_st_dump-Holds 4 three one_two_three 2 three_held (omega arith)

-- -3 and 2 ^ 31 - 1 are too far apart for the comparison.
far_apart : to_int (pos (2 ^ 31 + 2)) ≡ negsuc (2 ^ 31 - 3)
unfolding to_int
far_apart = refl
