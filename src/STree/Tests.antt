-- ===== src/STree/Tests.antt =====
-- The theorems on the S-tree at a chain of three nodes that leans to the right.
use linux_summer.Prelude.{
  ℕ, ◌+◌, ◌≡◌, ◌≢◌, refl, ◌==◌, if◌then◌else◌, arith, ℕ_discrete, count, Bool, some, [], ◌∷◌, true,
  false, update,
}
use mathlib.Core.Option
use linux_summer.Prelude.Int.{ℤ, pos, ◌-ℤ◌, to_short}
use linux_summer.STree.{
  Tree, balance, side, relink, adopt, move_root, rotate_left, rotate_right, max_hint, rebalance,
  set_hint, goes_on, st_update, find_slot, st_find, attach, insert_at, put_new, st_insert,
}
use linux_summer.STree.Shape.{Shape, leaf, node, top, Focus, IsTree, HintsTo}
use linux_summer.STree.Update.{Updated, st_update-IsTree}
use linux_summer.STree.Attach.{Creates}
use linux_summer.STree.Search.{seek, place, Rising}
use linux_summer.STree.Insert.{Inserted}
use linux_summer.STree.Destroy.{st_destroy, postorder, st_destroy-postorder}
use linux_summer.STree.Contract.{st_find-seek, st_insert-present, st_insert-place, st_insert-find}

abbrev pub chain : Tree
chain = record {
  root = 1;
  hint = λ a. if a == 1 then pos 2 else (if a == 2 then pos 1 else pos 0);
  parent = λ a. if a == 2 then 1 else (if a == 3 then 2 else 0);
  left = λ a. 0;
  right = λ a. if a == 1 then 2 else (if a == 2 then 3 else 0);
}

abbrev chain_shape : Shape
chain_shape = node leaf 1 (node leaf 2 (node leaf 3 leaf))

pub chain-HintsTo : HintsTo chain 2
chain-HintsTo a = elim (ℕ_discrete a 1) [
  | yes e ↦ (2, ground arith, omega arith)
  | no ne ↦ (elim (ℕ_discrete a 2) [
    | yes e ↦ (1, ground arith, omega arith)
    | no ne' ↦ (0, ground arith, omega arith)
  ])
]

abbrev chain-Focus : Focus chain top chain_shape 1 0
chain-Focus = record {
  above = (refl, refl);
  below = (
    refl,
    omega arith,
    refl,
    refl,
    (refl, omega arith, refl, refl, (refl, omega arith, refl, refl, refl)),
  );
  distinct = λ a. ground arith;
}

abbrev pub chain-IsTree : IsTree chain (1 ∷ (2 ∷ (3 ∷ [])))
chain-IsTree = record {
  shape = chain_shape;
  links = chain-Focus.below;
  distinct = λ a. ground arith;
  order = refl;
}

-- the key of a node is its address
abbrev pub cmp : ℕ → ℕ → ℤ
cmp a key = pos a -ℤ pos key

-- a callback that zeroes the node at the key
abbrev pub create : Tree → ℕ → Tree × ℕ
create s key = (
  record s {
    hint = λ a. if a == key then pos 0 else s.hint a;
    parent = update s.parent key 0;
    left = update s.left key 0;
    right = update s.right key 0;
  },
  key,
)

pub chain-Creates : Creates chain (create chain 4).0 4 (1 ∷ (2 ∷ (3 ∷ [])))
chain-Creates = record {
  nonzero = omega arith;
  unused = refl;
  zeroed = (refl, refl, refl, refl);
  same = λ a ne. record { parent = ground arith; left = ground arith; right = ground arith };
  hint = λ a ne. ground arith;
  root = refl;
}

st_update-IsTree_example : Updated 2 chain 1 (1 ∷ (2 ∷ (3 ∷ []))) 3
st_update-IsTree_example =
    st_update-IsTree 2 chain top leaf (node leaf 2 (node leaf 3 leaf)) 1 0 2 chain-Focus
      chain-HintsTo (omega arith) (omega arith)

pub chain-Rising : (d : ℕ) → Rising (λ a. cmp a (d + 3)) (1 ∷ (2 ∷ (3 ∷ [])))
chain-Rising d = (λ e. absurd (ground (arith, e)), (λ e. absurd (ground (arith, e)), (λ e. tt, tt)))

pub seek_3 : seek (λ a. cmp a 3) (1 ∷ (2 ∷ (3 ∷ []))) ≢ 0
unfolding seek
seek_3 e = omega (arith, e)

pub seek_4 : seek (λ a. cmp a 4) (1 ∷ (2 ∷ (3 ∷ []))) ≡ 0
unfolding seek
seek_4 = refl

st_find-seek_example : st_find cmp 3 4 chain ≡ some (seek (λ a. cmp a 3) (1 ∷ (2 ∷ (3 ∷ []))))
st_find-seek_example =
    st_find-seek cmp 3 4 chain (1 ∷ (2 ∷ (3 ∷ []))) chain-IsTree (chain-Rising 0) (omega arith)

st_insert-present_example : st_insert cmp create 4 chain 3 ≡ some (chain, false)
st_insert-present_example =
    st_insert-present cmp create 4 chain 3 (1 ∷ (2 ∷ (3 ∷ []))) chain-IsTree (chain-Rising 0) seek_3
      (omega arith)

st_insert-place_example :
    Inserted cmp create 5 chain 4 (place (λ a. cmp a 4) 4 (1 ∷ (2 ∷ (3 ∷ [])))) 6
st_insert-place_example =
    st_insert-place cmp create 5 chain 4 (1 ∷ (2 ∷ (3 ∷ []))) 2 chain-IsTree chain-HintsTo
      (chain-Rising 1) seek_4 chain-Creates (omega arith) (omega arith)

st_insert-find_example :
    (s' : Tree) × (st_insert cmp create 5 chain 4 ≡ some (s', true)) × (st_find cmp 4 5 s' ≡ some 4)
st_insert-find_example =
    st_insert-find cmp create 5 chain 4 (1 ∷ (2 ∷ (3 ∷ []))) 2 chain-IsTree chain-HintsTo
      (chain-Rising 1) seek_4 chain-Creates refl (omega arith) (omega arith)

-- The update makes node 2 the root; the insertion of 4, below node 3, makes 3 the root.
chain_balanced : Option.map (λ (t : Tree). t.root) (st_update 2 chain 1) ≡ some 2
unfolding balance side relink adopt move_root rotate_left rotate_right max_hint rebalance set_hint
    goes_on st_update to_short
chain_balanced = refl

chain_inserted :
    Option.map {B = ℕ × ℕ × ℕ}
      (λ (o : Tree × Bool). (o.0.root, o.0.right 3, o.0.parent 3))
      (st_insert cmp create 5 chain 4)
    ≡ some (3, 4, 0)
unfolding balance side relink adopt move_root rotate_left rotate_right max_hint rebalance set_hint
    goes_on st_update find_slot attach insert_at put_new st_insert to_short
chain_inserted = refl

st_destroy-postorder_example :
    (st_destroy 4 chain ≡ some (postorder chain-IsTree.shape))
    × ((a : ℕ) → count a (postorder chain-IsTree.shape) ≡ count a (1 ∷ (2 ∷ (3 ∷ []))))
st_destroy-postorder_example =
    st_destroy-postorder 4 chain (1 ∷ (2 ∷ (3 ∷ []))) chain-IsTree (omega arith)
