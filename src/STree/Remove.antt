-- ===== src/STree/Remove.antt =====
-- `st_remove` of hw1/treeint/s_tree.c with the functions that only it uses.
pub mod Fields
pub mod DetachRight
pub mod DetachLeft
pub mod Spine
pub mod SpineLeft
pub mod ReplaceLeft
pub mod Replace
pub mod MovedRight
pub mod MovedLeft
pub mod NearRight
pub mod NearLeft
pub mod Hints
pub mod Erase
pub mod Order
pub mod Correct
pub mod Leaf
pub mod Contract
pub mod Tests
use mathlib.Core.Option
use linux_summer.Prelude.{
  ℕ, zero, suc, Bool, true, false, not, ◌&&◌, ◌==◌, if◌then◌else◌, Option, none, some, ◌>>=◌,
  update,
}
use linux_summer.Prelude.Int.{ℤ}
use linux_summer.STree.{Tree, relink, adopt, move_root, st_update, st_find}

pub st_first : ℕ → Tree → ℕ → Option ℕ
st_first zero s n = none
st_first (suc fuel) s n =
    let rest = st_first fuel s (s.left n) in if s.left n == 0 then some n else rest

pub st_last : ℕ → Tree → ℕ → Option ℕ
st_last zero s n = none
st_last (suc fuel) s n =
    let rest = st_last fuel s (s.right n) in if s.right n == 0 then some n else rest

-- `if (c) ...` for a statement on the tree
abbrev pub when : Bool → (Tree → Tree) → Tree → Tree
when b f s = if b then f s else s

-- the parts of `st_replace_right`, in the order of its statements
pub splice_right : Tree → ℕ → ℕ → Tree
unfolding adopt
splice_right s rp r =
    when (s.left rp == r)
      (λ t. adopt (record t { left = update t.left rp (t.right r) }) (t.right r) rp) s

-- `if (st_parent(rp) == n) st_parent(rp) = r;`, in `st_replace_left` too
pub hand_over : Tree → ℕ → ℕ → ℕ → Tree
hand_over s rp n r = when (s.parent rp == n) (λ t. record t { parent = update t.parent rp r }) s

pub settle_right : Tree → ℕ → ℕ → ℕ → Tree
settle_right s n r p = record s { parent = update s.parent r p; left = update s.left r (s.left n) }

pub take_right : Tree → ℕ → ℕ → Tree
take_right s n r =
    when (not (s.right n == r))
      (λ t. record t {
        right = update t.right r (t.right n);
        parent = update t.parent (t.right n) r;
      })
      s

pub link_right : Tree → ℕ → ℕ → ℕ → Tree
unfolding relink adopt
link_right s p n r = let t = relink s p n r in adopt t (t.left n) r

pub st_replace_right : Tree → ℕ → ℕ → Tree
unfolding splice_right hand_over settle_right take_right link_right
st_replace_right s n r =
    let p = s.parent n in
    let rp = s.parent r in
    let s₁ = splice_right s rp r in
    let s₂ = hand_over s₁ rp n r in
    let s₃ = settle_right s₂ n r p in let s₄ = take_right s₃ n r in link_right s₄ p n r

-- the same of `st_replace_left`
pub splice_left : Tree → ℕ → ℕ → Tree
unfolding adopt
splice_left s lp l =
    when (s.right lp == l)
      (λ t. adopt (record t { right = update t.right lp (t.left l) }) (t.left l) lp) s

pub settle_left : Tree → ℕ → ℕ → ℕ → Tree
settle_left s n l p = record s {
  parent = update s.parent l p;
  right = update s.right l (s.right n);
}

pub take_left : Tree → ℕ → ℕ → Tree
take_left s n l =
    when (not (s.left n == l))
      (λ t. record t { left = update t.left l (t.left n); parent = update t.parent (t.left n) l }) s

pub link_left : Tree → ℕ → ℕ → ℕ → Tree
unfolding relink adopt
link_left s p n l = let t = relink s p n l in adopt t (t.right n) l

pub st_replace_left : Tree → ℕ → ℕ → Tree
unfolding splice_left hand_over settle_left take_left link_left
st_replace_left s n l =
    let p = s.parent n in
    let lp = s.parent l in
    let s₁ = splice_left s lp l in
    let s₂ = hand_over s₁ lp n l in
    let s₃ = settle_left s₂ n l p in let s₄ = take_left s₃ n l in link_left s₄ p n l

-- the cases of `__st_remove`
pub remove_right : ℕ → Tree → ℕ → Option Tree
unfolding st_first move_root st_replace_right st_update
remove_right fuel s del = do
  least ← st_first fuel s (s.right del)
  let t = st_replace_right (move_root s del least) del least
  st_update fuel t (t.right least)

pub remove_left : ℕ → Tree → ℕ → Option Tree
unfolding st_last move_root st_replace_left st_update
remove_left fuel s del = do
  most ← st_last fuel s (s.left del)
  let t = st_replace_left (move_root s del most) del most
  st_update fuel t (t.left most)

pub remove_leaf : ℕ → Tree → ℕ → Option Tree
unfolding st_update
remove_leaf fuel s del =
    let parent = s.parent del in
    let t =
      if s.left parent == del
      then record s { left = update s.left parent 0 }
      else record s { right = update s.right parent 0 } in
    if del == s.root then some (record s { root = 0 }) else st_update fuel t parent

-- `__st_remove`
pub remove_node : ℕ → Tree → ℕ → Option Tree
unfolding remove_right remove_left remove_leaf
remove_node fuel s del =
    if not (s.right del == 0)
    then remove_right fuel s del
    else (if not (s.left del == 0) then remove_left fuel s del else remove_leaf fuel s del)

-- `st_remove`: false is the result -1, and the last component is the node that `destroy_node` gets.
pub st_remove : {K : Type 0} → (ℕ → K → ℤ) → ℕ → Tree → K → Option (Tree × Bool × ℕ)
unfolding st_find remove_node
st_remove cmp fuel s key = do
  n ← st_find cmp key fuel s
  if n == 0 then some (s, false, 0) else Option.map (λ t. (t, true, n)) (remove_node fuel s n)
