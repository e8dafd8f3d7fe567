-- ===== src/STree/Remove/Tests.antt =====
-- The theorems on `st_remove` at the chain of three nodes.
use linux_summer.Prelude.{ℕ, ◌≡◌, refl, arith, some, [], ◌∷◌, true, false}
use mathlib.Core.Option
use linux_summer.Prelude.Int.{to_short}
use linux_summer.STree.{
  Tree, balance, side, relink, adopt, move_root, rotate_left, rotate_right, max_hint, rebalance,
  set_hint, goes_on, st_update, st_find, st_insert,
}
use linux_summer.STree.Search.{seek}
use linux_summer.STree.Tests.{
  chain, cmp, create, chain-HintsTo, chain-IsTree, chain-Creates, chain-Rising, seek_3, seek_4,
}
use linux_summer.STree.Remove.{
  st_first, splice_right, hand_over, settle_right, take_right, link_right, st_replace_right,
  remove_right, remove_node, st_remove,
}
use linux_summer.STree.Remove.Erase.{erase}
use linux_summer.STree.Remove.Correct.{Leaves}
use linux_summer.STree.Remove.Contract.{
  Removed, remove_node-erase, st_remove-absent, st_remove-erase, st_remove-find,
  st_insert-st_remove,
}

remove_node-erase_example : Leaves (remove_node 5 chain 1) (erase 1 (1 ∷ (2 ∷ (3 ∷ [])))) 6
remove_node-erase_example =
    remove_node-erase 5 chain 1 (1 ∷ (2 ∷ (3 ∷ []))) 2 chain-IsTree chain-HintsTo (omega arith)
      (omega arith) (omega arith)

st_remove-absent_example : st_remove cmp 4 chain 4 ≡ some (chain, false, 0)
st_remove-absent_example =
    st_remove-absent cmp 4 chain 4 (1 ∷ (2 ∷ (3 ∷ []))) chain-IsTree (chain-Rising 1) seek_4
      (omega arith)

st_remove-erase_example :
    Removed cmp 5 chain 3
      (seek (λ a. cmp a 3) (1 ∷ (2 ∷ (3 ∷ []))))
      (erase (seek (λ a. cmp a 3) (1 ∷ (2 ∷ (3 ∷ [])))) (1 ∷ (2 ∷ (3 ∷ []))))
      6
st_remove-erase_example =
    st_remove-erase cmp 5 chain 3 (1 ∷ (2 ∷ (3 ∷ []))) 2 chain-IsTree chain-HintsTo (chain-Rising 0)
      seek_3 (omega arith) (omega arith)

st_remove-find_example :
    (s' : Tree) × (st_remove cmp 5 chain 3
      ≡ some (s', true, seek (λ a. cmp a 3) (1 ∷ (2 ∷ (3 ∷ [])))))
    × (st_find cmp 3 5 s' ≡ some 0)
st_remove-find_example =
    st_remove-find cmp 5 chain 3 (1 ∷ (2 ∷ (3 ∷ []))) 2 chain-IsTree chain-HintsTo (chain-Rising 0)
      seek_3 (omega arith) (omega arith)

st_insert-st_remove_example :
    (s' : Tree) × (st_insert cmp create 6 chain 4 ≡ some (s', true))
    × Removed cmp 6 s' 4 4 (1 ∷ (2 ∷ (3 ∷ []))) 11
st_insert-st_remove_example =
    st_insert-st_remove cmp create 6 chain 4 (1 ∷ (2 ∷ (3 ∷ []))) 2 chain-IsTree chain-HintsTo
      (chain-Rising 1) seek_4 chain-Creates refl (omega arith) (omega arith)

-- Node 2 takes the place of the root.
chain_removed :
    Option.map {B = ℕ × ℕ × ℕ}
      (λ (t : Tree). (t.root, t.right 2, t.parent 2))
      (remove_node 5 chain 1)
    ≡ some (2, 3, 0)
unfolding balance side relink adopt move_root rotate_left rotate_right max_hint rebalance set_hint
    goes_on st_update to_short st_first splice_right hand_over settle_right take_right link_right
    st_replace_right remove_right remove_node
chain_removed = refl
