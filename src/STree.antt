-- ===== src/STree.antt =====
-- hw1/treeint/s_tree.c: the S-tree, over a heap of nodes. A node is its address, 0 is NULL, and each
-- field of `struct st_node` is a map from addresses.
pub mod Shape
pub mod Frame
pub mod Fields
pub mod Place
pub mod Rotate
pub mod Climb
pub mod Rebalance
pub mod Round
pub mod Update
pub mod Search
pub mod Find
pub mod Attach
pub mod Put
pub mod Insert
pub mod Contract
pub mod Destroy
pub mod Remove
pub mod Tests
use linux_summer.Prelude.{
  ℕ, zero, suc, Bool, true, false, not, ◌&&◌, ◌==◌, if◌then◌else◌, Option, none, some, update,
}
use mathlib.Core.Option
use linux_summer.Prelude.Int.{ℤ, pos, negsuc, ◌+ℤ◌, ◌-ℤ◌, lt_ℤ, to_short}

-- `struct st_tree`, without its callbacks, and the nodes
pub record Tree : Type 0 where
  pub root : ℕ
  pub hint : ℕ → ℤ
  pub parent : ℕ → ℕ
  pub left : ℕ → ℕ
  pub right : ℕ → ℕ

-- `if (p && st_left(p) == n) st_left(p) = x; else if (p) st_right(p) = x;`
pub relink : Tree → ℕ → ℕ → ℕ → Tree
relink s p n x =
    if not (p == 0) && (s.left p == n)
    then record s { left = update s.left p x }
    else (if not (p == 0) then record s { right = update s.right p x } else s)

-- `if (b) b->parent = n;`
pub adopt : Tree → ℕ → ℕ → Tree
adopt s b n = if not (b == 0) then record s { parent = update s.parent b n } else s

pub rotate_left : Tree → ℕ → Tree
unfolding relink adopt
rotate_left s n =
    let l = s.left n in
    let p = s.parent n in
    let s₁ = record s {
      parent = update (update s.parent l p) n l;
      left = update s.left n (s.right l);
      right = update s.right l n;
    } in
    let s₂ = relink s₁ p n l in adopt s₂ (s₂.left n) n

pub rotate_right : Tree → ℕ → Tree
unfolding relink adopt
rotate_right s n =
    let r = s.right n in
    let p = s.parent n in
    let s₁ = record s {
      parent = update (update s.parent r p) n r;
      left = update s.left r n;
      right = update s.right n (s.left r);
    } in
    let s₂ = relink s₁ p n r in adopt s₂ (s₂.right n) n

-- `int l = 0; if (c) l = c->hint + 1;` for a child `c`
pub side : Tree → ℕ → ℤ
side s c = if c == 0 then pos 0 else s.hint c +ℤ pos 1

pub balance : Tree → ℕ → ℤ
balance s n = side s (s.left n) -ℤ side s (s.right n)

pub max_hint : Tree → ℕ → ℤ
max_hint s n = let l = side s (s.left n) in let r = side s (s.right n) in if lt_ℤ r l then l else r

-- `if (n == *root) *root = x;`
pub move_root : Tree → ℕ → ℕ → Tree
move_root s n x = if n == s.root then record s { root = x } else s

-- The rotation of `st_update`, with the root moved before it.
pub rebalance : Tree → ℕ → Tree
unfolding balance move_root rotate_left rotate_right
rebalance s n =
    let b = balance s n in
    if lt_ℤ b (negsuc 0)
    then rotate_right (move_root s n (s.right n)) n
    else (if lt_ℤ (pos 1) b then rotate_left (move_root s n (s.left n)) n else s)

-- `n->hint = st_max_hint(n)`
pub set_hint : Tree → ℕ → Tree
unfolding max_hint
set_hint s n = record s { hint = update s.hint n (to_short (max_hint s n)) }

-- `n->hint == 0 || n->hint != prev_hint`
pub goes_on : ℤ → ℤ → Bool
goes_on (pos zero) prev = true
goes_on (pos (suc h)) (pos k) = not (suc h == k)
goes_on (pos (suc h)) (negsuc k) = true
goes_on (negsuc h) (pos k) = true
goes_on (negsuc h) (negsuc k) = not (h == k)

-- `st_update`: each round handles a node and goes to its parent; fuel counts the rounds, and `none`
-- means that it ran out.
pub st_update : ℕ → Tree → ℕ → Option Tree
unfolding rebalance set_hint goes_on
st_update zero s n = none
st_update (suc fuel) s n =
    let t = set_hint (rebalance s n) n in
    let rest = st_update fuel t (s.parent n) in
    if n == 0 then some s else (if goes_on (t.hint n) (s.hint n) then rest else some t)

-- `enum st_dir`
pub data Dir : Type 0 where
  left_dir right_dir none_dir : Dir

-- `cmp` is the callback of the tree and `key` the key that is looked for.
module _ {K : Type 0} (cmp : ℕ → K → ℤ) (key : K) where
  -- The loop of `__st_find` at the node `n`: the node that it returns, `*p` and `*d`.
  pub find_slot : ℕ → Tree → ℕ → ℕ → Dir → Option (ℕ × ℕ × Dir)
  find_slot zero s n p d = none
  find_slot (suc fuel) s n p d =
      let rest : Option (ℕ × ℕ × Dir) = elim (cmp n key) [
        | pos zero ↦ some (n, p, d)
        | pos (suc k) ↦ find_slot fuel s (s.left n) n left_dir
        | negsuc k ↦ find_slot fuel s (s.right n) n right_dir
      ] in
      if n == 0 then some (0, p, d) else rest

  -- The loop of `__st_find2` at the node `n`.
  pub find_node : ℕ → Tree → ℕ → Option ℕ
  find_node zero s n = none
  find_node (suc fuel) s n =
      let rest : Option ℕ = elim (cmp n key) [
        | pos zero ↦ some n
        | pos (suc k) ↦ find_node fuel s (s.left n)
        | negsuc k ↦ find_node fuel s (s.right n)
      ] in
      if n == 0 then some 0 else rest

  pub st_find : ℕ → Tree → Option ℕ
  st_find fuel s = find_node fuel s s.root

-- `st_left(p) = n` or `st_right(p) = n`, and `st_parent(n) = p`
pub attach : Tree → ℕ → ℕ → Dir → Tree
attach s p n left_dir = record s { left = update s.left p n; parent = update s.parent n p }
attach s p n d = record s { right = update s.right p n; parent = update s.parent n p }

-- `__st_insert`
pub insert_at : ℕ → Tree → ℕ → ℕ → Dir → Option Tree
unfolding attach st_update
insert_at fuel s p n d = st_update fuel (attach s p n d) n

-- `st_insert` from the creation of the node on; `none` also stands for the failed assertion.
pub put_new : ℕ → Tree → ℕ → ℕ → Dir → Option Tree
unfolding insert_at
put_new fuel s n p none_dir = if s.root == 0 then some (record s { root = n }) else none
put_new fuel s n p left_dir =
    if s.root == 0 then some (record s { root = n }) else insert_at fuel s p n left_dir
put_new fuel s n p right_dir =
    if s.root == 0 then some (record s { root = n }) else insert_at fuel s p n right_dir

-- `st_insert`, where `create` is the callback `create_node`: false is the result -1, true is 0.
pub st_insert :
    {K : Type 0} → (ℕ → K → ℤ) → (Tree → K → Tree × ℕ) → ℕ → Tree → K → Option (Tree × Bool)
unfolding find_slot put_new
st_insert cmp create fuel s key = elim (find_slot cmp key fuel s s.root 0 none_dir) [
  | none ↦ none
  | some (found, p, d) ↦
      if not (found == 0)
      then some (s, false)
      else Option.map (λ t. (t, true)) (put_new fuel (create s key).0 (create s key).1 p d)
]
