-- ===== src/IntTree/Keys.antt =====
-- The nodes of a tree that hold an ascending list of integers.
use linux_summer.Prelude.{
  ℕ, ◌≡◌, ◌≢◌, refl, sym, ap, ap₂, subst, ◌∙◌, inl, inr, ◌==◌, if◌then◌else◌, true, false,
  Bool-cases, List, [], ◌∷◌, map, count, update, length, arith,
}
use linux_summer.Prelude.Int.{ℤ, pos, negsuc, ◌-ℤ◌, lt_ℤ, eq_ℤ, to_int-small}
use linux_summer.STree.Search.{seek, place, Rising, Greater, ℤ-cases}
use linux_summer.STree.Remove.Erase.{erase}
use linux_summer.STree.Remove.Order.{seek-key}
use linux_summer.IntTree.{treeint_st_cmp}
use linux_summer.IntTree.Sets.{has, with_key, without, AllAbove, Ascending, Small, AllSmall}

-- the comparison of small integers
cmp-Small :
    (value : ℕ → ℤ) (n : ℕ) (a : ℤ)
    → Small (value n)
    → Small a
    → treeint_st_cmp value n a ≡ value n -ℤ a
unfolding treeint_st_cmp
cmp-Small value n a h h' = to_int-small (value n -ℤ a) (ground (arith, h, h'))

no_difference : (x y : ℤ) → x -ℤ y ≡ pos 0 → x ≡ y
no_difference (pos n) (pos k) e = ap pos (ground (arith, e))
no_difference (pos n) (negsuc k) e = absurd (ground (arith, e))
no_difference (negsuc n) (pos k) e = absurd (ground (arith, e))
no_difference (negsuc n) (negsuc k) e = ap negsuc (ground (arith, e))

module _ (value : ℕ → ℤ) (a : ℤ) (a_small : Small a) where
  abbrev v : ℕ → ℤ
  v n = treeint_st_cmp value n a

  v_above : (n : ℕ) → Small (value n) → lt_ℤ (pos 0) (v n) ≡ lt_ℤ a (value n)
  v_above n h = ap (lt_ℤ (pos 0)) (cmp-Small value n a h a_small) ∙ ground arith

  v_below : (n : ℕ) → Small (value n) → lt_ℤ (v n) (pos 0) ≡ lt_ℤ (value n) a
  v_below n h = ap (λ z. lt_ℤ z (pos 0)) (cmp-Small value n a h a_small) ∙ ground arith

  AllAbove-Greater :
      (k : ℤ) (xs : List ℕ)
      → AllSmall (map value xs)
      → lt_ℤ k a ≡ false
      → AllAbove k (map value xs)
      → Greater v xs
  AllAbove-Greater k [] s le g = tt
  AllAbove-Greater k (n ∷ xs) (s, ss) le (g, gs) =
      (v_above n s ∙ ground (arith, le, g), AllAbove-Greater k xs ss le gs)

  pub Ascending-Rising :
      (xs : List ℕ) → AllSmall (map value xs) → Ascending (map value xs) → Rising v xs
  Ascending-Rising [] s g = tt
  Ascending-Rising (n ∷ xs) (s, ss) (g, gs) =
      (λ e. AllAbove-Greater (value n) xs ss (sym (v_below n s) ∙ e) g, Ascending-Rising xs ss gs)

  -- The node with the key is there just if the key is.
  pub seek-has :
      (xs : List ℕ)
      → AllSmall (map value xs)
      → count 0 xs ≡ 0
      → (seek v xs == 0) ≡ (if has a (map value xs) then false else true)
  unfolding seek has
  seek-has [] s z = refl
  seek-has (n ∷ xs) (s, ss) z =
      let c = cmp-Small value n a s a_small in
      let ih = seek-has xs ss (omega (arith, z)) in
      elim (ℤ-cases (v n)) [
        | inl e ↦ ground (arith, e, sym c ∙ e, z)
        | inr (inl (k, e)) ↦ ground (arith, e, sym c ∙ e, ih)
        | inr (inr (k, e)) ↦ ground (arith, e, sym c ∙ e, ih)
      ]

  pub seek-value : (xs : List ℕ) → AllSmall (map value xs) → seek v xs ≢ 0 → value (seek v xs) ≡ a
  unfolding seek
  seek-value [] s nz = absurd (nz refl)
  seek-value (n ∷ xs) (s, ss) nz =
      let c = cmp-Small value n a s a_small in
      elim (ℤ-cases (v n)) [
        | inl e ↦ ground (arith, e, no_difference (value n) a (sym c ∙ e))
        | inr (inl (k, e)) ↦ ground (arith, e, nz, seek-value xs ss)
        | inr (inr (k, e)) ↦ ground (arith, e, nz, seek-value xs ss)
      ]

  erase_further :
      (n m : ℕ) (xs : List ℕ)
      → n ≢ m
      → eq_ℤ (value n) a ≡ false
      → map value (erase m xs) ≡ without a (map value xs)
      → map value (erase m (n ∷ xs)) ≡ without a (map value (n ∷ xs))
  unfolding erase without
  erase_further n m xs ne k e = ground (arith, k, ap (λ z. value n ∷ z) e)

  erase_here :
      (n : ℕ) (xs : List ℕ)
      → v n ≡ pos 0
      → eq_ℤ (value n) a ≡ true
      → map value (erase (seek v (n ∷ xs)) (n ∷ xs)) ≡ without a (map value (n ∷ xs))
  unfolding seek erase without
  erase_here n xs e k = ground (arith, e, k)

  pub map-erase :
      (xs : List ℕ)
      → AllSmall (map value xs)
      → seek v xs ≢ 0
      → map value (erase (seek v xs) xs) ≡ without a (map value xs)
  unfolding seek
  map-erase [] s nz = absurd (nz refl)
  map-erase (n ∷ xs) (s, ss) nz =
      let c = cmp-Small value n a s a_small in
      let further =
        λ (sk : seek v (n ∷ xs) ≡ seek v xs) (ne : v n ≢ pos 0) (k : eq_ℤ (value n) a ≡ false).
          let nz' : seek v xs ≢ 0 = λ z. nz (sk ∙ z) in
          subst (λ z. map value (erase z (n ∷ xs)) ≡ without a (map value (n ∷ xs))) (sym sk)
            (erase_further n (seek v xs) xs (λ z. ne (ap v z ∙ seek-key v xs nz')) k
              (map-erase xs ss nz')) in
      elim (ℤ-cases (v n)) [
        | inl e ↦ erase_here n xs e (ground (arith, sym c ∙ e))
        | inr (inl (k, e)) ↦
            further (ground (arith, e)) (λ z. ground (arith, sym e ∙ z)) (ground (arith, sym c ∙ e))
        | inr (inr (k, e)) ↦
            further (ground (arith, e)) (λ z. ground (arith, sym e ∙ z)) (ground (arith, sym c ∙ e))
      ]

  -- A node with the key goes to the key's place.
  pub map-place :
      (n : ℕ) (xs : List ℕ)
      → AllSmall (map value xs)
      → count n xs ≡ 0
      → map (update value n a) (place v n xs) ≡ with_key a (map value xs)
  unfolding place with_key
  map-place n [] s z = ground arith
  map-place n (m ∷ xs) (s, ss) z =
      let up = v_above m s in
      let ih = map-place n xs ss (omega (arith, z)) in
      let same = map-update n xs (omega (arith, z)) in
      elim (Bool-cases (lt_ℤ a (value m))) [
        | inl e ↦ ground (arith, up, e, same, z)
        | inr e ↦ ground (arith, up, e, ih, z)
      ]
    where
      map-update : (n : ℕ) (xs : List ℕ) → count n xs ≡ 0 → map (update value n a) xs ≡ map value xs
      map-update n [] z = refl
      map-update n (m ∷ xs) z =
          ap₂ (λ x y. x ∷ y) (ground (arith, z)) (map-update n xs (omega (arith, z)))

pub length-map : (f : ℕ → ℤ) (xs : List ℕ) → length (map f xs) ≡ length xs
length-map f [] = refl
length-map f (x ∷ xs) = omega (arith, length-map f xs)
