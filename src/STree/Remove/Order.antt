-- ===== src/STree/Remove/Order.antt =====
-- The order of the nodes against a key once the node with the key is gone.
use linux_summer.Prelude.{
  ℕ, ◌≤◌, ◌<◌, ◌≡◌, ◌≢◌, refl, sym, ap, subst, ◌∙◌, inl, inr, ◌==◌, List, [], ◌∷◌, count, length,
  arith, Bool-cases,
}
use linux_summer.Prelude.Int.{ℤ, pos, lt_ℤ}
use linux_summer.STree.Search.{seek, place, Rising, Greater, ℤ-cases}
use linux_summer.STree.Remove.Erase.{erase}

pub length-erase : (n : ℕ) (xs : List ℕ) → length (erase n xs) ≤ length xs
unfolding erase
length-erase n [] = omega arith
length-erase n (a ∷ xs) = ground (arith, length-erase n xs)

Greater-erase : (v : ℕ → ℤ) (n : ℕ) (xs : List ℕ) → Greater v xs → Greater v (erase n xs)
unfolding erase
Greater-erase v n [] g = g
Greater-erase v n (a ∷ xs) (g, gs) = elim (Bool-cases (a == n)) [
  | inl e ↦ rw e gs
  | inr e ↦ rw e (g, Greater-erase v n xs gs)
]

pub Rising-erase : (v : ℕ → ℤ) (n : ℕ) (xs : List ℕ) → Rising v xs → Rising v (erase n xs)
unfolding erase
Rising-erase v n [] r = r
Rising-erase v n (a ∷ xs) (h, r) = elim (Bool-cases (a == n)) [
  | inl e ↦ rw e r
  | inr e ↦ rw e (λ z. Greater-erase v n xs (h z), Rising-erase v n xs r)
]

Greater-seek : (v : ℕ → ℤ) (xs : List ℕ) → Greater v xs → seek v xs ≡ 0
unfolding seek
Greater-seek v [] g = refl
Greater-seek v (a ∷ xs) (g, gs) = elim (ℤ-cases (v a)) [
  | inl e ↦ ground (arith, e, g)
  | inr (inl (k, e)) ↦ ground (arith, e, Greater-seek v xs gs)
  | inr (inr (k, e)) ↦ ground (arith, e, g)
]

-- the node that is found has the key, and stands in the list
pub seek-key : (v : ℕ → ℤ) (xs : List ℕ) → seek v xs ≢ 0 → v (seek v xs) ≡ pos 0
unfolding seek
seek-key v [] nz = absurd (nz refl)
seek-key v (a ∷ xs) nz = elim (ℤ-cases (v a)) [
  | inl e ↦ ground (arith, e)
  | inr (inl (k, e)) ↦ ground (arith, e, nz, seek-key v xs)
  | inr (inr (k, e)) ↦ ground (arith, e, nz, seek-key v xs)
]

pub count-seek : (v : ℕ → ℤ) (xs : List ℕ) → seek v xs ≢ 0 → 0 < count (seek v xs) xs
unfolding seek
count-seek v [] nz = absurd (nz refl)
count-seek v (a ∷ xs) nz = elim (ℤ-cases (v a)) [
  | inl e ↦ ground (arith, e)
  | inr (inl (k, e)) ↦ ground (arith, e, nz, count-seek v xs)
  | inr (inr (k, e)) ↦ ground (arith, e, nz, count-seek v xs)
]

-- Where no two nodes have the key, none has it once the found one is gone.
pub seek-erase :
    (v : ℕ → ℤ) (n : ℕ) (xs : List ℕ)
    → Rising v xs
    → seek v xs ≡ n
    → n ≢ 0
    → seek v (erase n xs) ≡ 0
unfolding seek erase
seek-erase v n [] r e nz = absurd (nz (sym e))
seek-erase v n (a ∷ xs) (h, r) e nz = elim (ℤ-cases (v a)) [
  | inl z ↦ ground (arith, z, e, Greater-seek v xs (h (ground (arith, z))))
  | inr (inl (k, z)) ↦ ground (arith, z, e, nz, Greater-seek v xs (h (ground (arith, z))))
  | inr (inr (k, z)) ↦
      let e' : seek v xs ≡ n = ground (arith, z, e) in
      let key : v n ≡ pos 0 = subst (λ w. v w ≡ pos 0) e' (seek-key v xs (λ w. nz (sym e' ∙ w))) in
      elim (Bool-cases (a == n)) [
        | inl q ↦ (let same : a ≡ n = ground (arith, q) in ground (arith, z, key, ap v same))
        | inr q ↦ ground (arith, q, z, seek-erase v n xs r e' nz)
      ]
]

-- A node that was not there is put in its place and taken out of it again.
pub erase-place : (v : ℕ → ℤ) (n : ℕ) (xs : List ℕ) → count n xs ≡ 0 → erase n (place v n xs) ≡ xs
unfolding erase place
erase-place v n [] e = ground arith
erase-place v n (a ∷ xs) e = elim (Bool-cases (lt_ℤ (pos 0) (v a))) [
  | inl t ↦ ground (arith, t)
  | inr t ↦ ground (arith, t, erase-place v n xs)
]
