-- ===== src/STree/Update.antt =====
-- `st_update` from a node up to the root.
use linux_summer.Prelude.{
  ℕ, zero, suc, ◌+◌, ◌≤◌, ◌<◌, ◌^◌, ◌≡◌, ◌≢◌, sym, ap, subst, ◌∙◌, arith, inl, inr, true, false,
  Bool-cases, some, List,
}
use linux_summer.STree.{Tree, rebalance, set_hint, goes_on, st_update}
use linux_summer.STree.Shape.{
  Shape, node, Around, top, left_of, right_of, Focus, IsTree, inorder, fill, depth, HintsTo,
}
use linux_summer.STree.Climb.{up_left, up_right, Focus-whole}
use linux_summer.STree.Round.{round-Kept}

-- What `st_update` leaves: it comes back, the nodes keep their order, and no hint is above `m`.
pub record Updated (fuel : ℕ) (s : Tree) (n : ℕ) (xs : List ℕ) (m : ℕ) : Type 0 where
  pub after : Tree
  pub run : st_update fuel s n ≡ some after
  pub tree : IsTree after xs
  pub hints : HintsTo after m

pub HintsTo-mono : (s : Tree) (m k : ℕ) → m ≤ k → HintsTo s m → HintsTo s k
HintsTo-mono s m k le h a = let (j, e, b) = h a in (j, e, omega arith)

Updated-stop :
    (fuel : ℕ) (s : Tree) (n : ℕ) (xs : List ℕ) (m : ℕ)
    → n ≢ 0
    → IsTree (set_hint (rebalance s n) n) xs
    → HintsTo (set_hint (rebalance s n) n) m
    → goes_on ((set_hint (rebalance s n) n).hint n) (s.hint n) ≡ false
    → Updated (suc fuel) s n xs m
unfolding st_update
Updated-stop fuel s n xs m nz t h e = record {
  after = set_hint (rebalance s n) n;
  run = ground arith;
  tree = t;
  hints = h;
}

pub Updated-null :
    (fuel : ℕ) (s : Tree) (n : ℕ) (xs : List ℕ) (m : ℕ)
    → n ≡ 0
    → IsTree s xs
    → HintsTo s m
    → Updated (suc fuel) s n xs m
unfolding st_update
Updated-null fuel s n xs m z t h = record { after = s; run = ground arith; tree = t; hints = h }

Updated-on :
    (fuel : ℕ) (s : Tree) (n : ℕ) (xs : List ℕ) (m : ℕ)
    → n ≢ 0
    → goes_on ((set_hint (rebalance s n) n).hint n) (s.hint n) ≡ true
    → Updated fuel (set_hint (rebalance s n) n) (s.parent n) xs m
    → Updated (suc fuel) s n xs m
unfolding st_update
Updated-on fuel s n xs m nz e u = record {
  after = u.after;
  run = ground (arith, u.run);
  tree = u.tree;
  hints = u.hints;
}

-- A round at `n`, where `rest` is what follows it at the parent.
Updated-round :
    (fuel : ℕ) (s : Tree) (c : Around) (l r : Shape) (n p m k : ℕ)
    → m + 1 < 2 ^ 15
    → m + 1 ≤ k
    → HintsTo s m
    → Focus s c (node l n r) n p
    → ((s' : Tree) (t : Shape) (x : ℕ)
        → Focus s' c t x p
        → inorder t ≡ inorder (node l n r)
        → HintsTo s' (m + 1)
        → Updated fuel s' (s.parent n) (fill c (inorder (node l n r))) k)
    → Updated (suc fuel) s n (fill c (inorder (node l n r))) k
Updated-round fuel s c l r n p m k small le h f rest =
    let xs = fill c (inorder (node l n r)) in
    let s' = set_hint (rebalance s n) n in
    let (t, x, f', o, h') = round-Kept s c l r n p m small h f in
    elim (Bool-cases (goes_on (s'.hint n) (s.hint n))) [
      | inl e ↦ Updated-on fuel s n xs k f.below.1 e (rest s' t x f' o h')
      | inr e ↦
          Updated-stop fuel s n xs k f.below.1
            (subst (λ z. IsTree s' (fill c z)) o (Focus-whole s' c t x p f'))
            (HintsTo-mono s' (m + 1) k le h') e
    ]

Updated-of_eq :
    (fuel : ℕ) (s : Tree) (a n : ℕ) (xs ys : List ℕ) (m k : ℕ)
    → a ≡ n
    → xs ≡ ys
    → m ≡ k
    → Updated fuel s a xs m
    → Updated fuel s n ys k
Updated-of_eq fuel s a n xs ys m k ea ex em u =
    subst (λ z. Updated fuel s z ys k) ea
      (subst (λ z. Updated fuel s a z k) ex (subst (λ z. Updated fuel s a xs z) em u))

-- `st_update` at a node of a tree comes back, and the nodes stay in their order, if the hints stay
-- below 2 ^ 15.
pub st_update-IsTree :
    (fuel : ℕ) (s : Tree) (c : Around) (l r : Shape) (n p m : ℕ)
    → Focus s c (node l n r) n p
    → HintsTo s m
    → depth c + 1 < fuel
    → m + depth c + 1 < 2 ^ 15
    → Updated fuel s n (fill c (inorder (node l n r))) (m + depth c + 1)
st_update-IsTree zero s c l r n p m f h enough small = absurd (omega arith)
st_update-IsTree (suc zero) s c l r n p m f h enough small = absurd (omega arith)
st_update-IsTree (suc (suc fuel)) s top l r n p m f h enough small =
    Updated-round (suc fuel) s top l r n p m (m + 0 + 1) (omega arith) (omega arith) h f
      (λ s' t x f' o h'.
        Updated-null fuel s' (s.parent n) (inorder (node l n r)) (m + 0 + 1) (f.below.2 ∙ f.above.0)
          (subst (λ z. IsTree s' z) o (Focus-whole s' top t x p f'))
          (HintsTo-mono s' (m + 1) (m + 0 + 1) (omega arith) h'))
st_update-IsTree (suc (suc fuel)) s (left_of c a r') l r n p m f h enough small =
    let k = m + suc (depth c) + 1 in
    let xs = fill (left_of c a r') (inorder (node l n r)) in
    Updated-round (suc fuel) s (left_of c a r') l r n p m k (omega arith) (omega arith) h f
      (λ s' t x f' o h'.
        Updated-of_eq (suc fuel) s' a (s.parent n) (fill c (inorder (node t a r'))) xs
          (m + 1 + depth c + 1) k (sym (f.below.2 ∙ f.above.0)) (ap (fill (left_of c a r')) o)
          (omega arith)
          (st_update-IsTree (suc fuel) s' c t r' a (s'.parent a) (m + 1)
            (up_left s' c a r' t x p f') h' (omega arith) (omega arith)))
st_update-IsTree (suc (suc fuel)) s (right_of l' a c) l r n p m f h enough small =
    let k = m + suc (depth c) + 1 in
    let xs = fill (right_of l' a c) (inorder (node l n r)) in
    Updated-round (suc fuel) s (right_of l' a c) l r n p m k (omega arith) (omega arith) h f
      (λ s' t x f' o h'.
        Updated-of_eq (suc fuel) s' a (s.parent n) (fill c (inorder (node l' a t))) xs
          (m + 1 + depth c + 1) k (sym (f.below.2 ∙ f.above.0)) (ap (fill (right_of l' a c)) o)
          (omega arith)
          (st_update-IsTree (suc fuel) s' c l' t a (s'.parent a) (m + 1)
            (up_right s' l' a c t x p f') h' (omega arith) (omega arith)))
