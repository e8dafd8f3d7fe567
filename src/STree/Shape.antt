-- ===== src/STree/Shape.antt =====
-- Which binary tree the links of a heap make up, and the place of a subtree in it.
use linux_summer.Prelude.{
  ◌<◌, ltb, if◌then◌else◌, length, length-append, arith, ℕ, suc, ◌+◌, ◌≤◌, ◌≡◌, ◌≢◌, List, [], ◌∷◌,
  ◌++◌, one_if, ◌==◌,
}
use linux_summer.Prelude.Int.{pos}
use linux_summer.STree.{Tree}

-- a binary tree of addresses
pub data Shape : Type 0 where
  leaf : Shape
  node : (l : Shape) (a : ℕ) (r : Shape) → Shape

-- what lies around a subtree, from its parent up to the root
pub data Around : Type 0 where
  top : Around
  left_of : (c : Around) (a : ℕ) (r : Shape) → Around  -- a left child of `a`
  right_of : (l : Shape) (a : ℕ) (c : Around) → Around  -- a right child of `a`

-- The subtree below the link `x`, whose parent is `p`.
abbrev pub Below : Tree → ℕ → Shape → ℕ → Type 0
Below s p leaf x = x ≡ 0
Below s p (node l a r) x =
    (x ≡ a) × (a ≢ 0) × (s.parent a ≡ p) × Below s a l (s.left a) × Below s a r (s.right a)

-- The link `x` to the subtree, its parent `p`, and all above.
abbrev pub Above : Tree → Around → ℕ → ℕ → Type 0
Above s top x p = (p ≡ 0) × (s.root ≡ x)
Above s (left_of c a r) x p =
    (p ≡ a) × (a ≢ 0) × (s.left a ≡ x) × Below s a r (s.right a) × Above s c a (s.parent a)
Above s (right_of l a c) x p =
    (p ≡ a) × (a ≢ 0) × (s.right a ≡ x) × Below s a l (s.left a) × Above s c a (s.parent a)

-- how often an address occurs
abbrev pub within : Shape → ℕ → ℕ
within leaf a = 0
within (node l b r) a = within l a + one_if (b == a) + within r a

abbrev pub outside : Around → ℕ → ℕ
outside top a = 0
outside (left_of c b r) a = outside c a + one_if (b == a) + within r a
outside (right_of l b c) a = within l a + one_if (b == a) + outside c a

abbrev pub Distinct : Around → Shape → Type 0
Distinct c t = (a : ℕ) → outside c a + within t a ≤ 1

pub record Focus (s : Tree) (c : Around) (t : Shape) (x p : ℕ) : Type 0 where
  pub above : Above s c x p
  pub below : Below s p t x
  pub distinct : Distinct c t

-- the addresses from left to right
abbrev pub inorder : Shape → List ℕ
inorder leaf = []
inorder (node l a r) = inorder l ++ (a ∷ inorder r)

abbrev pub fill : Around → List ℕ → List ℕ
fill top xs = xs
fill (left_of c a r) xs = fill c (xs ++ (a ∷ inorder r))
fill (right_of l a c) xs = fill c (inorder l ++ (a ∷ xs))

-- `s` holds a tree, no address in it twice, with the addresses `xs` from left to right.
pub record IsTree (s : Tree) (xs : List ℕ) : Type 0 where
  pub shape : Shape
  pub links : Below s 0 shape s.root
  pub distinct : (a : ℕ) → within shape a ≤ 1
  pub order : inorder shape ≡ xs

abbrev pub depth : Around → ℕ
depth top = 0
depth (left_of c a r) = suc (depth c)
depth (right_of l a c) = suc (depth c)

-- the height of a shape
abbrev pub tall : Shape → ℕ
tall leaf = 0
tall (node l a r) = if ltb (tall r) (tall l) then tall l + 1 else (tall r + 1)

pub tall-inorder : (t : Shape) → tall t ≤ length (inorder t)
tall-inorder leaf = omega arith
tall-inorder (node l a r) =
    ground (arith, tall-inorder l, tall-inorder r, length-append (inorder l) (a ∷ inorder r))

pub tall-node :
    (l : Shape) (a : ℕ) (r : Shape) → (tall l < tall (node l a r)) × (tall r < tall (node l a r))
tall-node l a r = (ground arith, ground arith)

-- Each hint is a number up to `m`.
abbrev pub HintsTo : Tree → ℕ → Type 0
HintsTo s m = (a : ℕ) → (h : ℕ) × (s.hint a ≡ pos h) × (h ≤ m)
