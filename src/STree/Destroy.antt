-- ===== src/STree/Destroy.antt =====
-- `st_destroy` of hw1/treeint/s_tree.c: the calls of the callback `destroy_node`, in their order.
use linux_summer.Prelude.{
  ℕ, zero, suc, ◌<◌, ◌≡◌, refl, sym, ap, ap₂, subst, ◌∙◌, ◌==◌, arith, if◌then◌else◌, Option, none,
  some, List, [], ◌∷◌, ◌++◌, length, length-append, count, count-append,
}
use linux_summer.STree.{Tree}
use linux_summer.STree.Shape.{Shape, leaf, node, Below, IsTree, inorder}

-- the calls for the left subtree, those for the right one, then the one for the node
pub and_then : Option (List ℕ) → Option (List ℕ) → ℕ → Option (List ℕ)
and_then (some ls) (some rs) n = some (ls ++ (rs ++ (n ∷ [])))
and_then (some ls) none n = none
and_then none r n = none

-- `__st_destroy`
pub destroy_below : ℕ → Tree → ℕ → Option (List ℕ)
unfolding and_then
destroy_below zero s n = none
destroy_below (suc fuel) s n =
    let ls = destroy_below fuel s (s.left n) in
    let rs = destroy_below fuel s (s.right n) in
    and_then (if s.left n == 0 then some [] else ls) (if s.right n == 0 then some [] else rs) n

pub st_destroy : ℕ → Tree → Option (List ℕ)
unfolding destroy_below
st_destroy fuel s =
    let calls = destroy_below fuel s s.root in if s.root == 0 then some [] else calls

-- the nodes of a tree, each after those below it
pub postorder : Shape → List ℕ
postorder leaf = []
postorder (node l a r) = postorder l ++ (postorder r ++ (a ∷ []))

subtree :
    (fuel : ℕ) (s : Tree) (p : ℕ) (t : Shape) (x : ℕ)
    → Below s p t x
    → length (inorder t) < fuel
    → (if x == 0 then some [] else destroy_below fuel s x) ≡ some (postorder t)
unfolding destroy_below and_then postorder
subtree zero s p t x b enough = absurd (omega arith)
subtree (suc fuel) s p leaf x b enough = ground (arith, b)
subtree (suc fuel) s p (node l a r) x (e, nz, pe, bl, br) enough =
    let size = length-append (inorder l) (a ∷ inorder r) in
    let ls = subtree fuel s a l (s.left a) bl (omega (arith, size)) in
    let rs = subtree fuel s a r (s.right a) br (omega (arith, size)) in
    subst
      (λ z.
        (if z == 0 then some [] else destroy_below (suc fuel) s z) ≡ some (postorder (node l a r)))
      (sym e) (ground (arith, nz, ap₂ (λ (u v : Option (List ℕ)). and_then u v a) ls rs))

count-postorder : (t : Shape) (a : ℕ) → count a (postorder t) ≡ count a (inorder t)
unfolding postorder
count-postorder leaf a = refl
count-postorder (node l b r) a = omega (
  arith,
  count-append a (postorder l) (postorder r ++ (b ∷ [])),
  count-append a (postorder r) (b ∷ []),
  count-append a (inorder l) (b ∷ inorder r),
  count-postorder l a,
  count-postorder r a,
)

-- `st_destroy` comes back, and has called `destroy_node` once for each node of the tree, after the
-- calls for the nodes below it.
pub st_destroy-postorder :
    (fuel : ℕ) (s : Tree) (xs : List ℕ) (t : IsTree s xs)
    → length xs < fuel
    → (st_destroy fuel s ≡ some (postorder t.shape))
      × ((a : ℕ) → count a (postorder t.shape) ≡ count a xs)
unfolding st_destroy
st_destroy-postorder fuel s xs t enough = (
  subtree fuel s 0 t.shape s.root t.links (omega (arith, ap length t.order)),
  λ a. count-postorder t.shape a ∙ ap (count a) t.order,
)
