-- ===== src/IntTree/Sets.antt =====
-- Sets of integers as ascending lists.
use linux_summer.Prelude.{
  ◌+◌, ◌<◌, ◌^◌, ◌≡◌, refl, inl, inr, if◌then◌else◌, Bool, true, false, Bool-cases, List, [], ◌∷◌,
  arith,
}
use linux_summer.Prelude.Int.{ℤ, pos_part, neg_part, lt_ℤ, eq_ℤ}

-- the set of integers
unfoldable pub has : ℤ → List ℤ → Bool
has a [] = false
has a (k ∷ ks) = let rest = has a ks in if eq_ℤ k a then true else rest

unfoldable pub with_key : ℤ → List ℤ → List ℤ
with_key a [] = a ∷ []
with_key a (k ∷ ks) = let rest = with_key a ks in if lt_ℤ a k then a ∷ (k ∷ ks) else (k ∷ rest)

unfoldable pub without : ℤ → List ℤ → List ℤ
without a [] = []
without a (k ∷ ks) = let rest = without a ks in if eq_ℤ k a then ks else (k ∷ rest)

abbrev pub AllAbove : ℤ → List ℤ → Type 0
AllAbove a [] = Unit {0}
AllAbove a (k ∷ ks) = (lt_ℤ a k ≡ true) × AllAbove a ks

abbrev pub Ascending : List ℤ → Type 0
Ascending [] = Unit {0}
Ascending (k ∷ ks) = AllAbove k ks × Ascending ks

-- The difference of two such integers is an `int`.
abbrev pub Small : ℤ → Type 0
Small a = pos_part a + neg_part a < 2 ^ 30

abbrev pub AllSmall : List ℤ → Type 0
AllSmall [] = Unit {0}
AllSmall (k ∷ ks) = Small k × AllSmall ks

pub AllSmall-with_key : (a : ℤ) (ks : List ℤ) → Small a → AllSmall ks → AllSmall (with_key a ks)
unfolding with_key
AllSmall-with_key a [] h s = (h, tt)
AllSmall-with_key a (k ∷ ks) h (s, ss) = elim (Bool-cases (lt_ℤ a k)) [
  | inl e ↦ rw e (h, (s, ss))
  | inr e ↦ rw e (s, AllSmall-with_key a ks h ss)
]

pub AllSmall-without : (a : ℤ) (ks : List ℤ) → AllSmall ks → AllSmall (without a ks)
unfolding without
AllSmall-without a [] s = tt
AllSmall-without a (k ∷ ks) (s, ss) = elim (Bool-cases (eq_ℤ k a)) [
  | inl e ↦ rw e ss
  | inr e ↦ rw e (s, AllSmall-without a ks ss)
]

AllAbove-mono : (a b : ℤ) (ks : List ℤ) → lt_ℤ a b ≡ true → AllAbove b ks → AllAbove a ks
AllAbove-mono a b [] h g = tt
AllAbove-mono a b (k ∷ ks) h (g, gs) = (ground (arith, h, g), AllAbove-mono a b ks h gs)

AllAbove-with_key :
    (a b : ℤ) (ks : List ℤ) → lt_ℤ b a ≡ true → AllAbove b ks → AllAbove b (with_key a ks)
unfolding with_key
AllAbove-with_key a b [] h g = (h, tt)
AllAbove-with_key a b (k ∷ ks) h (g, gs) = elim (Bool-cases (lt_ℤ a k)) [
  | inl e ↦ rw e (h, (g, gs))
  | inr e ↦ rw e (g, AllAbove-with_key a b ks h gs)
]

AllAbove-without : (a b : ℤ) (ks : List ℤ) → AllAbove b ks → AllAbove b (without a ks)
unfolding without
AllAbove-without a b [] g = tt
AllAbove-without a b (k ∷ ks) (g, gs) = elim (Bool-cases (eq_ℤ k a)) [
  | inl e ↦ rw e gs
  | inr e ↦ rw e (g, AllAbove-without a b ks gs)
]

pub Ascending-with_key :
    (a : ℤ) (ks : List ℤ) → has a ks ≡ false → Ascending ks → Ascending (with_key a ks)
unfolding has with_key
Ascending-with_key a [] h g = (tt, tt)
Ascending-with_key a (k ∷ ks) h (g, gs) = elim (Bool-cases (lt_ℤ a k)) [
  | inl e ↦ rw e ((e, AllAbove-mono a k ks e g), (g, gs))
  | inr e ↦ rw e (
    AllAbove-with_key a k ks (ground (arith, e, h)) g,
    Ascending-with_key a ks (ground (arith, e, h)) gs,
  )
]

pub Ascending-without : (a : ℤ) (ks : List ℤ) → Ascending ks → Ascending (without a ks)
unfolding without
Ascending-without a [] g = tt
Ascending-without a (k ∷ ks) (g, gs) = elim (Bool-cases (eq_ℤ k a)) [
  | inl e ↦ rw e gs
  | inr e ↦ rw e (AllAbove-without a k ks g, Ascending-without a ks gs)
]

pub without-absent : (a : ℤ) (ks : List ℤ) → has a ks ≡ false → without a ks ≡ ks
unfolding has without
without-absent a [] h = refl
without-absent a (k ∷ ks) h = ground (arith, h, without-absent a ks)
