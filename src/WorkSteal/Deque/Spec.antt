-- ===== src/WorkSteal/Deque/Spec.antt =====
-- What the deque of hw3/work-steal.c promises: a list of items, pushed and taken at the back by
-- its owner and stolen at the front.
use linux_summer.Prelude.{ℕ, ◌≡◌, refl, ap, List, [], ◌∷◌, ◌++◌}
use linux_summer.WorkSteal.Deque.{empty}

unfoldable pub pop_front : List ℕ → ℕ × List ℕ
pop_front [] = (empty, [])
pop_front (x ∷ xs) = (x, xs)

unfoldable pub pop_back : List ℕ → ℕ × List ℕ
pop_back [] = (empty, [])
pop_back (x ∷ []) = (x, [])
pop_back (x ∷ y ∷ ys) = let (z, zs) = pop_back (y ∷ ys) in (z, x ∷ zs)

pub pop_back-append : (xs : List ℕ) (x : ℕ) → pop_back (xs ++ (x ∷ [])) ≡ (x, xs)
unfolding pop_back
pop_back-append [] x = refl
pop_back-append (y ∷ []) x = refl
pop_back-append (y ∷ z ∷ zs) x =
    ap (λ (r : ℕ × List ℕ). (r.0, y ∷ r.1)) (pop_back-append (z ∷ zs) x)

pub data Op : Type 0 where
  push : ℕ → Op
  take steal : Op

-- the items that the takes and steals among the calls return, in order
unfoldable pub run : List Op → List ℕ → List ℕ
run [] xs = []
run (push w ∷ ops) xs = run ops (xs ++ (w ∷ []))
run (take ∷ ops) xs = let (x, ys) = pop_back xs in x ∷ run ops ys
run (steal ∷ ops) xs = let (x, ys) = pop_front xs in x ∷ run ops ys
