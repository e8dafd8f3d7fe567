-- ===== src/STree/Fields.antt =====
-- What a rotation writes: each link of each node after it.
use linux_summer.Prelude.{ℕ, ◌≡◌, ◌≢◌, ◌⊎◌, ◌==◌, if◌then◌else◌, arith}
use linux_summer.STree.{Tree, move_root, rotate_left, rotate_right}
use linux_summer.STree.Frame.{Same}

-- From `s` to `s'` the node `n` goes below its left child `l`, whose right child `b` it takes over.
pub record RotatedLeft (s s' : Tree) (n l b p : ℕ) : Type 0 where
  pub root : s'.root ≡ (if n == s.root then l else s.root)
  pub hint : (a : ℕ) → s'.hint a ≡ s.hint a
  pub same : (a : ℕ) → a ≢ n → a ≢ l → (b ≡ 0) ⊎ (a ≢ b) → (p ≡ 0) ⊎ (a ≢ p) → Same s s' a
  pub upper : (s'.parent l ≡ p) × (s'.left l ≡ s.left l) × (s'.right l ≡ n)
  pub lower : (s'.parent n ≡ l) × (s'.left n ≡ b) × (s'.right n ≡ s.right n)
  pub moved : b ≢ 0 → (s'.parent b ≡ n) × (s'.left b ≡ s.left b) × (s'.right b ≡ s.right b)
  pub above : p ≢ 0 → s'.parent p ≡ s.parent p
  pub as_left : p ≢ 0 → s.left p ≡ n → (s'.left p ≡ l) × (s'.right p ≡ s.right p)
  pub as_right : p ≢ 0 → s.left p ≢ n → (s'.right p ≡ l) × (s'.left p ≡ s.left p)

pub record RotatedRight (s s' : Tree) (n r b p : ℕ) : Type 0 where
  pub root : s'.root ≡ (if n == s.root then r else s.root)
  pub hint : (a : ℕ) → s'.hint a ≡ s.hint a
  pub same : (a : ℕ) → a ≢ n → a ≢ r → (b ≡ 0) ⊎ (a ≢ b) → (p ≡ 0) ⊎ (a ≢ p) → Same s s' a
  pub upper : (s'.parent r ≡ p) × (s'.left r ≡ n) × (s'.right r ≡ s.right r)
  pub lower : (s'.parent n ≡ r) × (s'.left n ≡ s.left n) × (s'.right n ≡ b)
  pub moved : b ≢ 0 → (s'.parent b ≡ n) × (s'.left b ≡ s.left b) × (s'.right b ≡ s.right b)
  pub above : p ≢ 0 → s'.parent p ≡ s.parent p
  pub as_left : p ≢ 0 → s.left p ≡ n → (s'.left p ≡ r) × (s'.right p ≡ s.right p)
  pub as_right : p ≢ 0 → s.left p ≢ n → (s'.right p ≡ r) × (s'.left p ≡ s.left p)

pub rotate_left-Rotated :
    (s : Tree) (n l b p : ℕ)
    → s.left n ≡ l
    → s.right l ≡ b
    → s.parent n ≡ p
    → n ≢ l
    → p ≢ n
    → p ≢ l
    → b ≢ n
    → b ≢ l
    → (p ≢ 0 → b ≢ p)
    → RotatedLeft s (rotate_left (move_root s n l) n) n l b p
unfolding move_root rotate_left
rotate_left-Rotated s n l b p el eb ep nl pn pl bn bl bp = record {
  root = ground arith;
  hint = λ a. ground arith;
  same =
      λ a an al ab ap. record { parent = ground arith; left = ground arith; right = ground arith };
  upper = (ground arith, ground arith, ground arith);
  lower = (ground arith, ground arith, ground arith);
  moved = λ nz. (ground arith, ground arith, ground arith);
  above = λ nz. ground (arith, bp nz);
  as_left = λ nz e. (ground arith, ground arith);
  as_right = λ nz e. (ground arith, ground arith);
}

pub rotate_right-Rotated :
    (s : Tree) (n r b p : ℕ)
    → s.right n ≡ r
    → s.left r ≡ b
    → s.parent n ≡ p
    → n ≢ r
    → p ≢ n
    → p ≢ r
    → b ≢ n
    → b ≢ r
    → (p ≢ 0 → b ≢ p)
    → RotatedRight s (rotate_right (move_root s n r) n) n r b p
unfolding move_root rotate_right
rotate_right-Rotated s n r b p er eb ep nr pn pr bn br bp = record {
  root = ground arith;
  hint = λ a. ground arith;
  same =
      λ a an ar ab ap. record { parent = ground arith; left = ground arith; right = ground arith };
  upper = (ground arith, ground arith, ground arith);
  lower = (ground arith, ground arith, ground arith);
  moved = λ nz. (ground arith, ground arith, ground arith);
  above = λ nz. ground (arith, bp nz);
  as_left = λ nz e. (ground arith, ground arith);
  as_right = λ nz e. (ground arith, ground arith);
}
