-- ===== src/IntTree/Rows.antt =====
-- The rows of a tree, and the levels that the code of hw1/treeint/treeint_st.c prints one after the other.
use linux_summer.Prelude.{
  ℕ, zero, suc, ◌+◌, ◌-◌, ◌≤◌, ◌≡◌, refl, sym, ap, ap₂, ◌∙◌, ◌==◌, if◌then◌else◌, Option, none,
  some, List, [], ◌∷◌, ◌++◌, map, one_if, arith,
}
use mathlib.Core.List.{append_assoc, append-nil}
use linux_summer.Prelude.Int.{ℤ, eq_ℤ}
use linux_summer.STree.Shape.{Shape, leaf, node, tall, inorder}

-- what the code prints for one level of a shape
abbrev pub level_out : (ℕ → ℤ) → Shape → ℕ → List (Option ℤ)
level_out value leaf level = if level == 1 then none ∷ [] else []
level_out value (node l a r) level =
    if level == 1
    then some (value a) ∷ []
    else (level_out value l (level - 1) ++ level_out value r (level - 1))

abbrev pub levels_out : (ℕ → ℤ) → Shape → ℕ → List (Option ℤ)
levels_out value t zero = []
levels_out value t (suc h) = levels_out value t h ++ level_out value t (suc h)

-- how often the integer is printed
pub printed : ℤ → List (Option ℤ) → ℕ
printed a [] = 0
printed a (none ∷ ks) = printed a ks
printed a (some k ∷ ks) = one_if (eq_ℤ k a) + printed a ks

printed-append :
    (a : ℤ) (xs ys : List (Option ℤ)) → printed a (xs ++ ys) ≡ printed a xs + printed a ys
unfolding printed
printed-append a [] ys = omega arith
printed-append a (none ∷ xs) ys = printed-append a xs ys
printed-append a (some k ∷ xs) ys = omega (arith, printed-append a xs ys)

levels-leaf : (a : ℤ) (value : ℕ → ℤ) (h : ℕ) → printed a (levels_out value leaf h) ≡ 0
unfolding printed
levels-leaf a value zero = refl
levels-leaf a value (suc h) = ground (
  arith,
  printed-append a (levels_out value leaf h) (level_out value leaf (suc h)),
  levels-leaf a value h,
)

levels-node :
    (a : ℤ) (value : ℕ → ℤ) (l r : Shape) (n h : ℕ)
    → printed a (levels_out value (node l n r) (suc h))
      ≡ one_if (eq_ℤ (value n) a)
        + printed a (levels_out value l h)
        + printed a (levels_out value r h)
unfolding printed
levels-node a value l r n zero = omega arith
levels-node a value l r n (suc h) =
    let deep : level_out value (node l n r) (suc (suc h))
        ≡ level_out value l (suc h) ++ level_out value r (suc h) =
      ground arith in
    omega (
      arith,
      ap (printed a) deep,
      printed-append a (levels_out value (node l n r) (suc h))
          (level_out value (node l n r) (suc (suc h))),
      levels-node a value l r n h,
      printed-append a (level_out value l (suc h)) (level_out value r (suc h)),
      printed-append a (levels_out value l h) (level_out value l (suc h)),
      printed-append a (levels_out value r h) (level_out value r (suc h)),
    )

printed_values :
    (a : ℤ) (value : ℕ → ℤ) (xs ys : List ℕ)
    → printed a (map some (map value (xs ++ ys)))
      ≡ printed a (map some (map value xs)) + printed a (map some (map value ys))
unfolding printed
printed_values a value [] ys = omega arith
printed_values a value (x ∷ xs) ys = omega (arith, printed_values a value xs ys)

pub levels-inorder :
    (a : ℤ) (value : ℕ → ℤ) (u : Shape) (h : ℕ)
    → tall u ≤ h
    → printed a (levels_out value u h) ≡ printed a (map some (map value (inorder u)))
unfolding printed
levels-inorder a value leaf h le = levels-leaf a value h
levels-inorder a value (node l n r) zero le = absurd (ground (arith, le))
levels-inorder a value (node l n r) (suc h) le = omega (
  arith,
  levels-node a value l r n h,
  levels-inorder a value l h (ground (arith, le)),
  levels-inorder a value r h (ground (arith, le)),
  printed_values a value (inorder l) (n ∷ inorder r),
)

-- A row of the tree, and the row below it.
pub row : (ℕ → ℤ) → List Shape → List (Option ℤ)
row value [] = []
row value (leaf ∷ us) = none ∷ row value us
row value (node l a r ∷ us) = some (value a) ∷ row value us

pub children : List Shape → List Shape
children [] = []
children (leaf ∷ us) = children us
children (node l a r ∷ us) = l ∷ (r ∷ children us)

-- The first `h` rows, from the top down: the integers from left to right, and `none` for an empty child.
pub rows : (ℕ → ℤ) → ℕ → List Shape → List (Option ℤ)
unfolding row children
rows value zero us = []
rows value (suc h) us = row value us ++ rows value h (children us)

-- what the code prints for one level of several trees
abbrev forest_out : (ℕ → ℤ) → List Shape → ℕ → List (Option ℤ)
forest_out value [] level = []
forest_out value (u ∷ us) level = level_out value u level ++ forest_out value us level

abbrev forest_levels : (ℕ → ℤ) → List Shape → ℕ → List (Option ℤ)
forest_levels value us zero = []
forest_levels value us (suc h) = forest_levels value us h ++ forest_out value us (suc h)

first-row : (value : ℕ → ℤ) (us : List Shape) → forest_out value us 1 ≡ row value us
unfolding row
first-row value [] = refl
first-row value (leaf ∷ us) = ap (λ z. none ∷ z) (first-row value us)
first-row value (node l a r ∷ us) = ap (λ z. some (value a) ∷ z) (first-row value us)

lower-row :
    (value : ℕ → ℤ) (us : List Shape) (h : ℕ)
    → forest_out value us (suc (suc h)) ≡ forest_out value (children us) (suc h)
unfolding children
lower-row value [] h = refl
lower-row value (leaf ∷ us) h = ground (arith, lower-row value us h)
lower-row value (node l a r ∷ us) h = ground (
  arith,
  append_assoc (level_out value l (suc h)) (level_out value r (suc h))
      (forest_out value us (suc (suc h))),
  lower-row value us h,
)

pub levels-rows :
    (value : ℕ → ℤ) (h : ℕ) (us : List Shape) → forest_levels value us h ≡ rows value h us
unfolding rows
levels-rows value zero us = refl
levels-rows value (suc zero) us = first-row value us ∙ sym (append-nil (row value us))
levels-rows value (suc (suc h)) us =
    ap₂ (λ x y. x ++ y) (levels-rows value (suc h) us) (lower-row value us h)
    ∙ append_assoc (row value us) (rows value h (children us))
        (forest_out value (children us) (suc h))
    ∙ ap (λ z. row value us ++ z)
        (ap (λ z. z ++ forest_out value (children us) (suc h))
            (sym (levels-rows value h (children us)))
          ∙ levels-rows value (suc h) (children us))

pub levels-single :
    (value : ℕ → ℤ) (u : Shape) (h : ℕ) → levels_out value u h ≡ forest_levels value (u ∷ []) h
levels-single value u zero = refl
levels-single value u (suc h) =
    ap₂ (λ x y. x ++ y) (levels-single value u h) (sym (append-nil (level_out value u (suc h))))
