-- ===== src/STree/Search.antt =====
-- Looking up and placing a key in a list of nodes, where `v a` is how the node `a` compares with it.
use linux_summer.Prelude.{
  ℕ, zero, suc, ◌+◌, ◌≡◌, refl, sym, subst, ◌∙◌, arith, inl, inr, ◌⊎◌, true, false, Bool-cases,
  if◌then◌else◌, count, length, List, [], ◌∷◌, ◌++◌,
}
use linux_summer.Prelude.Int.{ℤ, pos, negsuc, lt_ℤ}

-- the first node with the key, or 0
unfoldable pub seek : (ℕ → ℤ) → List ℕ → ℕ
seek v [] = 0
seek v (a ∷ xs) = elim (v a) [ pos zero ↦ a | pos (suc k) ↦ seek v xs | negsuc k ↦ seek v xs ]

-- `n` is put before the first node that is above the key
unfoldable pub place : (ℕ → ℤ) → ℕ → List ℕ → List ℕ
place v n [] = n ∷ []
place v n (a ∷ xs) = if lt_ℤ (pos 0) (v a) then n ∷ (a ∷ xs) else (a ∷ place v n xs)

abbrev pub Greater : (ℕ → ℤ) → List ℕ → Type 0
Greater v [] = Unit {0}
Greater v (a ∷ xs) = (lt_ℤ (pos 0) (v a) ≡ true) × Greater v xs

-- All that follows a node that is not below the key is above it.
abbrev pub Rising : (ℕ → ℤ) → List ℕ → Type 0
Rising v [] = Unit {0}
Rising v (a ∷ xs) = (lt_ℤ (v a) (pos 0) ≡ false → Greater v xs) × Rising v xs

pub ℤ-cases : (z : ℤ) → (z ≡ pos 0) ⊎ (((k : ℕ) × (z ≡ pos (suc k))) ⊎ ((k : ℕ) × (z ≡ negsuc k)))
ℤ-cases (pos zero) = inl refl
ℤ-cases (pos (suc k)) = inr (inl (k, refl))
ℤ-cases (negsuc k) = inr (inr (k, refl))

Greater-front : (v : ℕ → ℤ) (xs ys : List ℕ) → Greater v (xs ++ ys) → Greater v xs
Greater-front v [] ys g = tt
Greater-front v (x ∷ xs) ys (g, gs) = (g, Greater-front v xs ys gs)

Greater-at :
    (v : ℕ → ℤ) (xs : List ℕ) (a : ℕ) (ys : List ℕ)
    → Greater v (xs ++ (a ∷ ys))
    → lt_ℤ (pos 0) (v a) ≡ true
Greater-at v [] a ys (g, gs) = g
Greater-at v (x ∷ xs) a ys (g, gs) = Greater-at v xs a ys gs

pub Rising-front : (v : ℕ → ℤ) (xs ys : List ℕ) → Rising v (xs ++ ys) → Rising v xs
Rising-front v [] ys r = tt
Rising-front v (x ∷ xs) ys (h, r) = (λ e. Greater-front v xs ys (h e), Rising-front v xs ys r)

pub Rising-back : (v : ℕ → ℤ) (xs ys : List ℕ) → Rising v (xs ++ ys) → Rising v ys
Rising-back v [] ys r = r
Rising-back v (x ∷ xs) ys (h, r) = Rising-back v xs ys r

seek-Greater : (v : ℕ → ℤ) (xs : List ℕ) → Greater v xs → seek v xs ≡ 0
unfolding seek
seek-Greater v [] g = refl
seek-Greater v (a ∷ xs) (g, gs) = elim (ℤ-cases (v a)) [
  | inl e ↦ ground (arith, e, g)
  | inr (inl (k, e)) ↦ ground (arith, e, seek-Greater v xs gs)
  | inr (inr (k, e)) ↦ ground (arith, e, seek-Greater v xs gs)
]

-- The key is not above a node that is above it, and not below one that is below it.
pub seek-front :
    (v : ℕ → ℤ) (xs : List ℕ) (a : ℕ) (ys : List ℕ) (k : ℕ)
    → v a ≡ pos (suc k)
    → Rising v (xs ++ (a ∷ ys))
    → seek v (xs ++ (a ∷ ys)) ≡ seek v xs
unfolding seek
seek-front v [] a ys k e (h, r) = ground (arith, e, seek-Greater v ys (h (ground (arith, e))))
seek-front v (x ∷ xs) a ys k e (h, r) = elim (ℤ-cases (v x)) [
  | inl e' ↦ ground (arith, e')
  | inr (inl (j, e')) ↦ ground (arith, e', seek-front v xs a ys k e r)
  | inr (inr (j, e')) ↦ ground (arith, e', seek-front v xs a ys k e r)
]

pub seek-back :
    (v : ℕ → ℤ) (xs : List ℕ) (a : ℕ) (ys : List ℕ) (k : ℕ)
    → v a ≡ negsuc k
    → Rising v (xs ++ (a ∷ ys))
    → seek v (xs ++ (a ∷ ys)) ≡ seek v ys
unfolding seek
seek-back v [] a ys k e r = ground (arith, e)
seek-back v (x ∷ xs) a ys k e (h, r) = elim (ℤ-cases (v x)) [
  | inl e' ↦ ground (arith, e, e', Greater-at v xs a ys (h (ground (arith, e'))))
  | inr (inl (j, e')) ↦ ground (arith, e', seek-back v xs a ys k e r)
  | inr (inr (j, e')) ↦ ground (arith, e', seek-back v xs a ys k e r)
]

pub place-front :
    (v : ℕ → ℤ) (n : ℕ) (xs : List ℕ) (a : ℕ) (ys : List ℕ) (k : ℕ)
    → v a ≡ pos (suc k)
    → place v n (xs ++ (a ∷ ys)) ≡ place v n xs ++ (a ∷ ys)
unfolding place
place-front v n [] a ys k e = ground (arith, e)
place-front v n (x ∷ xs) a ys k e = elim (Bool-cases (lt_ℤ (pos 0) (v x))) [
  | inl t ↦ ground (arith, t)
  | inr t ↦ ground (arith, t, place-front v n xs a ys k e)
]

pub place-back :
    (v : ℕ → ℤ) (n : ℕ) (xs : List ℕ) (a : ℕ) (ys : List ℕ) (k : ℕ)
    → v a ≡ negsuc k
    → Rising v (xs ++ (a ∷ ys))
    → place v n (xs ++ (a ∷ ys)) ≡ xs ++ (a ∷ place v n ys)
unfolding place
place-back v n [] a ys k e r = ground (arith, e)
place-back v n (x ∷ xs) a ys k e (h, r) = elim (ℤ-cases (v x)) [
  | inl e' ↦ ground (arith, e', place-back v n xs a ys k e r)
  | inr (inl (j, e')) ↦ ground (arith, e, e', Greater-at v xs a ys (h (ground (arith, e'))))
  | inr (inr (j, e')) ↦ ground (arith, e', place-back v n xs a ys k e r)
]

pub seek-at :
    (v : ℕ → ℤ) (xs : List ℕ) (a : ℕ) (ys : List ℕ)
    → v a ≡ pos 0
    → Rising v (xs ++ (a ∷ ys))
    → seek v (xs ++ (a ∷ ys)) ≡ a
unfolding seek
seek-at v [] a ys e r = ground (arith, e)
seek-at v (x ∷ xs) a ys e (h, r) = elim (ℤ-cases (v x)) [
  | inl e' ↦ ground (arith, e, e', Greater-at v xs a ys (h (ground (arith, e'))))
  | inr (inl (j, e')) ↦ ground (arith, e, e', Greater-at v xs a ys (h (ground (arith, e'))))
  | inr (inr (j, e')) ↦ ground (arith, e', seek-at v xs a ys e r)
]

pub seek-nil : (v : ℕ → ℤ) → seek v [] ≡ 0
unfolding seek
seek-nil v = refl

pub place-nil : (v : ℕ → ℤ) (n : ℕ) → place v n [] ≡ n ∷ []
unfolding place
place-nil v n = refl

-- What is put in its place keeps the order, and is found.
pub place-Rising :
    (v : ℕ → ℤ) (n : ℕ) (xs : List ℕ)
    → v n ≡ pos 0
    → Rising v xs
    → seek v xs ≡ 0
    → count 0 xs ≡ 0
    → Rising v (place v n xs) × (seek v (place v n xs) ≡ n)
unfolding seek place
place-Rising v n [] e r absent nz = ((λ h. tt, tt), ground (arith, e))
place-Rising v n (a ∷ xs) e (h, r) absent nz = elim (ℤ-cases (v a)) [
  | inl q ↦ absurd (ground (arith, q, absent, nz))
  | inr (inl (k, q)) ↦
      let g : lt_ℤ (pos 0) (v a) ≡ true = ground (arith, q) in
      let r' : Rising v (n ∷ (a ∷ xs)) = (λ z. (g, h (ground (arith, q))), (h, r)) in
      subst (λ z. Rising v z × (seek v z ≡ n)) (sym (place-front v n [] a xs k q))
        (r', seek-at v [] n (a ∷ xs) e r')
  | inr (inr (k, q)) ↦
      let (rs, found) = place-Rising v n xs e r (ground (arith, q, absent)) (omega (arith, nz)) in
      let r' : Rising v (a ∷ place v n xs) = (λ z. absurd (ground (arith, q, z)), rs) in
      subst (λ z. Rising v z × (seek v z ≡ n)) (sym (place-back v n [] a xs k q (h, r)))
        (r', seek-back v [] a (place v n xs) k q r' ∙ found)
]

pub length-place : (v : ℕ → ℤ) (n : ℕ) (xs : List ℕ) → length (place v n xs) ≡ length xs + 1
unfolding place
length-place v n [] = omega arith
length-place v n (a ∷ xs) = ground (arith, length-place v n xs)
