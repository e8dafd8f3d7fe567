-- ===== src/IntTree/Dump.antt =====
-- The printing of hw1/treeint/treeint_st.c, under PRINT_DEBUG: the integers that go out, in their order.
use linux_summer.Prelude.{
  ℕ, zero, suc, ◌+◌, ◌-◌, ◌<◌, ◌≡◌, refl, sym, ap, subst, ◌∙◌, ◌==◌, ltb, if◌then◌else◌, Option,
  none, some, ◌>>=◌, List, [], ◌∷◌, ◌++◌, map, length, length-append, arith,
}
use linux_summer.Prelude.Int.{ℤ}
use linux_summer.STree.Shape.{Shape, tall, leaf, node, Below, inorder}
use linux_summer.IntTree.{Ints}
use linux_summer.IntTree.Contract.{Holds}
use linux_summer.IntTree.Keys.{length-map}
use linux_summer.IntTree.Rows.{
  level_out, levels_out, printed, levels-inorder, rows, levels-rows, levels-single,
}

pub dump_preorder : ℕ → Ints → ℕ → Option (List ℤ)
dump_preorder zero t n = none
dump_preorder (suc fuel) t n =
    let first = dump_preorder fuel t (t.tree.left n) in
    let last = dump_preorder fuel t (t.tree.right n) in
    if n == 0 then some [] else (first >>= λ xs. last >>= λ ys. some (xs ++ (t.value n ∷ ys)))

pub height : ℕ → Ints → ℕ → Option ℕ
height zero t n = none
height (suc fuel) t n =
    let of_left = height fuel t (t.tree.left n) in
    let of_right = height fuel t (t.tree.right n) in
    if n == 0
    then some 0
    else (of_left >>= λ l. of_right >>= λ r. some (if ltb r l then l + 1 else (r + 1)))

-- `none` in the output is "null". The level is at least 1 in every call.
pub dump_level : ℕ → Ints → ℕ → ℕ → Option (List (Option ℤ))
dump_level zero t n level = none
dump_level (suc fuel) t n level =
    let first = dump_level fuel t (t.tree.left n) (level - 1) in
    let last = dump_level fuel t (t.tree.right n) (level - 1) in
    if n == 0
    then some (if level == 1 then none ∷ [] else [])
    else (if level == 1
        then some (some (t.value n) ∷ [])
        else (first >>= λ xs. last >>= λ ys. some (xs ++ ys)))

-- the loop of `treeint_st_dump_lvorder`, for the levels up to `h`
pub dump_levels : ℕ → Ints → ℕ → ℕ → Option (List (Option ℤ))
unfolding dump_level
dump_levels fuel t n zero = some []
dump_levels fuel t n (suc h) =
    dump_levels fuel t n h >>= λ xs. dump_level fuel t n (suc h) >>= λ ys. some (xs ++ ys)

pub dump_lvorder : ℕ → Ints → ℕ → Option (List (Option ℤ))
unfolding height dump_levels
dump_lvorder fuel t n = height fuel t n >>= λ h. dump_levels fuel t n h

pub data DumpMode : Type 0 where
  pre_order : DumpMode
  level_order : DumpMode

pub treeint_st_dump : ℕ → Ints → DumpMode → Option (List (Option ℤ))
unfolding dump_preorder dump_lvorder
treeint_st_dump fuel t pre_order = dump_preorder fuel t t.tree.root >>= λ ks. some (map some ks)
treeint_st_dump fuel t level_order = dump_lvorder fuel t t.tree.root

map-append : (f : ℕ → ℤ) (xs ys : List ℕ) → map f (xs ++ ys) ≡ map f xs ++ map f ys
map-append f [] ys = refl
map-append f (x ∷ xs) ys = ap (λ z. f x ∷ z) (map-append f xs ys)

dump_preorder-Below :
    (fuel : ℕ) (t : Ints) (p : ℕ) (u : Shape) (x : ℕ)
    → Below t.tree p u x
    → length (inorder u) < fuel
    → dump_preorder fuel t x ≡ some (map t.value (inorder u))
unfolding dump_preorder
dump_preorder-Below zero t p u x b enough = absurd (omega arith)
dump_preorder-Below (suc fuel) t p leaf x b enough = ground (arith, b)
dump_preorder-Below (suc fuel) t p (node l a r) x (e, nz, pe, bl, br) enough =
    let size = length-append (inorder l) (a ∷ inorder r) in
    let ls = dump_preorder-Below fuel t a l (t.tree.left a) bl (omega (arith, size)) in
    let rs = dump_preorder-Below fuel t a r (t.tree.right a) br (omega (arith, size)) in
    subst (λ z. dump_preorder (suc fuel) t z ≡ some (map t.value (inorder (node l a r)))) (sym e)
      (ground (arith, nz, ls, rs, map-append t.value (inorder l) (a ∷ inorder r)))

height-Below :
    (fuel : ℕ) (t : Ints) (p : ℕ) (u : Shape) (x : ℕ)
    → Below t.tree p u x
    → length (inorder u) < fuel
    → height fuel t x ≡ some (tall u)
unfolding height
height-Below zero t p u x b enough = absurd (omega arith)
height-Below (suc fuel) t p leaf x b enough = ground (arith, b)
height-Below (suc fuel) t p (node l a r) x (e, nz, pe, bl, br) enough =
    let size = length-append (inorder l) (a ∷ inorder r) in
    let ls = height-Below fuel t a l (t.tree.left a) bl (omega (arith, size)) in
    let rs = height-Below fuel t a r (t.tree.right a) br (omega (arith, size)) in
    subst (λ z. height (suc fuel) t z ≡ some (tall (node l a r))) (sym e)
      (ground (arith, nz, ls, rs))

dump_level-Below :
    (fuel : ℕ) (t : Ints) (p : ℕ) (u : Shape) (x level : ℕ)
    → Below t.tree p u x
    → length (inorder u) < fuel
    → dump_level fuel t x level ≡ some (level_out t.value u level)
unfolding dump_level
dump_level-Below zero t p u x level b enough = absurd (omega arith)
dump_level-Below (suc fuel) t p leaf x level b enough = ground (arith, b)
dump_level-Below (suc fuel) t p (node l a r) x level (e, nz, pe, bl, br) enough =
    let size = length-append (inorder l) (a ∷ inorder r) in
    let ls = dump_level-Below fuel t a l (t.tree.left a) (level - 1) bl (omega (arith, size)) in
    let rs = dump_level-Below fuel t a r (t.tree.right a) (level - 1) br (omega (arith, size)) in
    subst (λ z. dump_level (suc fuel) t z level ≡ some (level_out t.value (node l a r) level))
      (sym e) (ground (arith, nz, ls, rs))

dump_levels-Below :
    (fuel : ℕ) (t : Ints) (p : ℕ) (u : Shape) (x h : ℕ)
    → Below t.tree p u x
    → length (inorder u) < fuel
    → dump_levels fuel t x h ≡ some (levels_out t.value u h)
unfolding dump_levels
dump_levels-Below fuel t p u x zero b enough = refl
dump_levels-Below fuel t p u x (suc h) b enough = ground (
  arith,
  dump_levels-Below fuel t p u x h b enough,
  dump_level-Below fuel t p u x (suc h) b enough,
)

-- For a tree that holds integers below 2 ^ 30 in absolute value, with fuel above their number
-- `treeint_st_dump` comes back. For PRE_ORDER it prints the integers in ascending order. For LEVEL_ORDER it
-- prints the rows of the tree from the root down to the last one with a node, each from left to right with
-- "null" for an empty child, and so each integer as often as it is in the set.
pub treeint_st_dump-Holds :
    (fuel : ℕ) (t : Ints) (ks : List ℤ) (m : ℕ)
    → Holds t ks m
    → length ks < fuel
    → (treeint_st_dump fuel t pre_order ≡ some (map some ks))
      × ((u : Shape) × Below t.tree 0 u t.tree.root
          × (map t.value (inorder u) ≡ ks)
          × (treeint_st_dump fuel t level_order ≡ some (rows t.value (tall u) (u ∷ [])))
          × ((a : ℤ) → printed a (rows t.value (tall u) (u ∷ [])) ≡ printed a (map some ks)))
unfolding treeint_st_dump dump_lvorder
treeint_st_dump-Holds fuel t ks m h enough =
    let u = h.tree.shape in
    let b = h.tree.links in
    let e : map t.value (inorder u) ≡ ks = ap (map t.value) h.tree.order ∙ h.values in
    let enough' : length (inorder u) < fuel =
      omega (arith, ap length e, length-map t.value (inorder u)) in
    let front = dump_preorder-Below fuel t 0 u t.tree.root b enough' in
    let tallness = height-Below fuel t 0 u t.tree.root b enough' in
    let levels = dump_levels-Below fuel t 0 u t.tree.root (tall u) b enough' in
    let by_rows : levels_out t.value u (tall u) ≡ rows t.value (tall u) (u ∷ []) =
      levels-single t.value u (tall u) ∙ levels-rows t.value (tall u) (u ∷ []) in
    (
      ground (arith, front, e),
      (
        u,
        b,
        e,
        ground (arith, tallness, levels, by_rows),
        λ a.
            ap (printed a) (sym by_rows)
            ∙ levels-inorder a t.value u (tall u) (omega arith)
            ∙ ap (λ z. printed a (map some z)) e,
      ),
    )
