-- ===== src/Qsort/Parts.antt =====
-- An array in order but for the inside of some parts of it.
use linux_summer.Prelude.{
  ℕ, ◌+◌, ◌≤◌, ◌<◌, ◌≡◌, refl, ◌⊎◌, inl, inr, ltb, leb, ◌&&◌, one_if, List, [], ◌∷◌, ◌++◌, some,
  Bool, true, false, arith,
}
use linux_summer.Qsort.{Part, Outcome}
use linux_summer.Qsort.Shuffle.{Shuffle, done}

-- how many of the parts an element is in
abbrev pub cover : List Part → ℕ → ℕ
cover [] k = 0
cover (p ∷ ps) k = one_if (leb p.0 k && ltb k (p.0 + p.1)) + cover ps k

-- two elements are in one of the parts
abbrev pub Together : List Part → ℕ → ℕ → Type 0
Together [] i j = ⊥
Together (p ∷ ps) i j = ((p.0 ≤ i) × (j < p.0 + p.1)) ⊎ Together ps i j

pub cover-append : (ps qs : List Part) (k : ℕ) → cover (ps ++ qs) k ≡ cover ps k + cover qs k
cover-append [] qs k = omega arith
cover-append (p ∷ ps) qs k = omega (arith, cover-append ps qs k)

pub Together-front : (ps qs : List Part) (i j : ℕ) → Together ps i j → Together (ps ++ qs) i j
Together-front [] qs i j h = absurd h
Together-front (p ∷ ps) qs i j (inl h) = inl h
Together-front (p ∷ ps) qs i j (inr h) = inr (Together-front ps qs i j h)

pub Together-back : (ps qs : List Part) (i j : ℕ) → Together qs i j → Together (ps ++ qs) i j
Together-back [] qs i j h = h
Together-back (p ∷ ps) qs i j h = inr (Together-back ps qs i j h)

-- The sort of `n` elements from `a` on comes back: it has rearranged them, and has put them in order
-- but for the inside of the parts that it gave away, which lie apart.
pub record Sorts {E : Type 0} (key : E → ℕ) (forks : ℕ → ℕ → ℕ → Bool) (m : ℕ → E) (a n : ℕ)
    (o : Outcome E) : Type 0 where
  pub mem : ℕ → E
  pub parts : List Part
  pub run : o ≡ some (mem, parts)
  pub shuffle : Shuffle a (a + n) m mem
  pub order :
      (i j : ℕ) → a ≤ i → i < j → j < a + n → (key (mem i) ≤ key (mem j)) ⊎ Together parts i j
  pub apart : (k : ℕ) → cover parts k ≤ 1
  pub unforked : ((b x y : ℕ) → forks b x y ≡ false) → parts ≡ []
  pub inside : (k : ℕ) → (k < a) ⊎ (a + n ≤ k) → cover parts k ≡ 0

module _ {E : Type 0} (key : E → ℕ) (forks : ℕ → ℕ → ℕ → Bool) where
  pub Sorts-nothing : (m : ℕ → E) (a n : ℕ) → n ≡ 0 → Sorts key forks m a n (some (m, []))
  Sorts-nothing m a n z = record {
    mem = m;
    parts = [];
    run = refl;
    shuffle = done;
    order = λ i j p q r. absurd (omega arith);
    unforked = λ never. refl;
    apart = λ k. omega arith;
    inside = λ k p. refl;
  }

  pub Sorts-given :
      (m : ℕ → E) (a n x y : ℕ) → forks a x y ≡ true → Sorts key forks m a n (some (m, (a, n) ∷ []))
  Sorts-given m a n x y e = record {
    mem = m;
    parts = (a, n) ∷ [];
    run = refl;
    shuffle = done;
    order = λ i j p q r. inr (inl (p, r));
    unforked = λ never. cc (never a x y, e);
    apart = λ k. ground arith;
    inside = λ k p. ground (arith, p);
  }
