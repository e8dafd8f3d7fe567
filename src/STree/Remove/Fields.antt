-- ===== src/STree/Remove/Fields.antt =====
-- What `st_replace_right` and `st_replace_left` write.
use linux_summer.Prelude.{ℕ, ◌≡◌, ◌≢◌, ◌⊎◌, ◌==◌, if◌then◌else◌, Bool-cases, inl, inr, arith}
use linux_summer.STree.{Tree, move_root, relink, adopt}
use linux_summer.STree.Remove.{link_right, link_left}

-- The last two statements, from `t` to `t'`: `y` takes the place of `n` below its parent `p`, which is
-- 0 at the root, and becomes the parent of its child `c`.
pub record Linked (t t' : Tree) (n y c p : ℕ) : Type 0 where
  pub root : t'.root ≡ t.root
  pub hint : (a : ℕ) → t'.hint a ≡ t.hint a
  pub parents : (a : ℕ) → (c ≡ 0) ⊎ (a ≢ c) → t'.parent a ≡ t.parent a
  pub child : c ≢ 0 → t'.parent c ≡ y
  pub links : (a : ℕ) → (p ≡ 0) ⊎ (a ≢ p) → (t'.left a ≡ t.left a) × (t'.right a ≡ t.right a)
  pub as_left : p ≢ 0 → t.left p ≡ n → (t'.left p ≡ y) × (t'.right p ≡ t.right p)
  pub as_right : p ≢ 0 → t.left p ≢ n → (t'.right p ≡ y) × (t'.left p ≡ t.left p)

pub link_right-Linked :
    (t : Tree) (n y c p : ℕ) → t.left n ≡ c → p ≢ n → Linked t (link_right t p n y) n y c p
unfolding link_right relink adopt
link_right-Linked t n y c p e pn = record {
  root = ground arith;
  hint = λ a. ground arith;
  parents = λ a o. ground arith;
  child = λ nz. ground arith;
  links = λ a o. (ground arith, ground arith);
  as_left = λ nz e'. (ground arith, ground arith);
  as_right = λ nz e'. (ground arith, ground arith);
}

pub link_left-Linked :
    (t : Tree) (n y c p : ℕ) → t.right n ≡ c → p ≢ n → Linked t (link_left t p n y) n y c p
unfolding link_left relink adopt
link_left-Linked t n y c p e pn = record {
  root = ground arith;
  hint = λ a. ground arith;
  parents = λ a o. ground arith;
  child = λ nz. ground arith;
  links = λ a o. (ground arith, ground arith);
  as_left = λ nz e'. (ground arith, ground arith);
  as_right = λ nz e'. (ground arith, ground arith);
}

pub move_root_cases :
    (P : Tree → Type 0) (s : Tree) (n r : ℕ) → P (record s { root = r }) → P s → P (move_root s n r)
unfolding move_root
move_root_cases P s n r a b = elim (Bool-cases (n == s.root)) [ inl e ↦ rw e a | inr e ↦ rw e b ]

pub move_root_root :
    (s : Tree) (n r : ℕ) → (move_root s n r).root ≡ (if n == s.root then r else s.root)
unfolding move_root
move_root_root s n r = ground arith

pub move_root_parent : (s : Tree) (n r k : ℕ) → (move_root s n r).parent k ≡ s.parent k
unfolding move_root
move_root_parent s n r k = ground arith

pub move_root_links :
    (s : Tree) (n r k : ℕ)
    → ((move_root s n r).left k ≡ s.left k) × ((move_root s n r).right k ≡ s.right k)
unfolding move_root
move_root_links s n r k = (ground arith, ground arith)
