-- ===== src/Qsort/Pool.antt =====
-- Several threads: a part that one call of `qsort_algo` gives away is sorted by another call, which a
-- worker makes later. The calls work on parts that lie apart, so each is taken as one step.
use linux_summer.Prelude.{
  ℕ, ◌+◌, ◌-◌, ◌≤◌, ◌<◌, ◌≡◌, sym, ap, subst, ◌∙◌, ◌⊎◌, inl, inr, ltb, leb, ◌&&◌, one_if, List, [],
  ◌∷◌, ◌++◌, Option, some, none, Bool, arith, dec_lt, dec_le, Bool-cases,
}
use linux_summer.Prelude.Int.{ℤ}
use linux_summer.Qsort.{Part, Outcome, qsort_algo}
use linux_summer.Qsort.Fits.{Fits, Fits-le}
use linux_summer.Qsort.Shuffle.{Shuffle, done, exchange, trans, Shuffle-all, Shuffle-outside}
use linux_summer.Qsort.Order.{Compares}
use linux_summer.Qsort.Parts.{cover, Together, cover-append, Together-front, Together-back, Sorts}
use linux_summer.Qsort.Correct.{qsort_algo-Sorts}

-- the array and the parts that wait for a worker
pub record Pool (E : Type 0) : Type 0 where
  pub mem : ℕ → E
  pub waiting : List Part

-- A worker takes any part that waits and runs `qsort_algo` on it.
pub data Work {E : Type 0} (cmp : E → E → ℤ) (es : ℕ) (forks : ℕ → ℕ → ℕ → Bool) (s : Pool E)
    : Pool E → Type 0 where
  work :
      (xs ys : List Part) (p : Part) {m : ℕ → E} {given : List Part}
      → s.waiting ≡ xs ++ (p ∷ ys)
      → qsort_algo cmp es forks (p.1 + 1) s.mem p.0 p.1 ≡ some (m, given)
      → Work cmp es forks s (record { mem = m; waiting = given ++ (xs ++ ys) })

pub data Runs {E : Type 0} (cmp : E → E → ℤ) (es : ℕ) (forks : ℕ → ℕ → ℕ → Bool) (s : Pool E)
    : Pool E → Type 0 where
  start : Runs cmp es forks s s
  further : {t u : Pool E} → Runs cmp es forks s t → Work cmp es forks t u → Runs cmp es forks s u

-- the whole array for one worker
abbrev pub whole : {E : Type 0} → (ℕ → E) → ℕ → ℕ → Pool E
whole m a n = record { mem = m; waiting = (a, n) ∷ [] }

-- What holds between two steps: the array is rearranged, and in order but for the waiting parts.
pub record Waits {E : Type 0} (key : E → ℕ) (m : ℕ → E) (a n : ℕ) (m' : ℕ → E) (ps : List Part)
    : Type 0 where
  pub shuffle : Shuffle a (a + n) m m'
  pub order : (i j : ℕ) → a ≤ i → i < j → j < a + n → (key (m' i) ≤ key (m' j)) ⊎ Together ps i j
  pub apart : (k : ℕ) → cover ps k ≤ 1
  pub inside : (k : ℕ) → (k < a) ⊎ (a + n ≤ k) → cover ps k ≡ 0

Together-split :
    (xs : List Part) (p : Part) (ys : List Part) (i j : ℕ)
    → Together (xs ++ (p ∷ ys)) i j
    → ((p.0 ≤ i) × (j < p.0 + p.1)) ⊎ Together (xs ++ ys) i j
Together-split [] p ys i j h = h
Together-split (x ∷ xs) p ys i j (inl h) = inr (inl h)
Together-split (x ∷ xs) p ys i j (inr h) = elim (Together-split xs p ys i j h) [
  | inl g ↦ inl g
  | inr g ↦ inr (inr g)
]

Together-cover : (ps : List Part) (i j k : ℕ) → Together ps i j → i ≤ k → k ≤ j → 0 < cover ps k
Together-cover [] i j k h p q = absurd h
Together-cover (x ∷ xs) i j k (inl h) p q = ground (arith, h)
Together-cover (x ∷ xs) i j k (inr h) p q = omega (arith, Together-cover xs i j k h p q)

module _ {E : Type 0} (key : E → ℕ) (forks : ℕ → ℕ → ℕ → Bool) (m m' : ℕ → E) (a n : ℕ)
    (xs : List Part) (b k : ℕ) (ys : List Part) (w : Waits key m a n m' (xs ++ ((b, k) ∷ ys))) where
  covers :
      (i : ℕ)
      → cover (xs ++ ((b, k) ∷ ys)) i ≡ one_if (leb b i && ltb i (b + k)) + cover (xs ++ ys) i
  covers i = omega (arith, cover-append xs ((b, k) ∷ ys) i, cover-append xs ys i)

  -- An element of the part and one elsewhere are in order.
  across_right :
      (i j : ℕ) → b ≤ i → i < b + k → b + k ≤ j → a ≤ i → j < a + n → key (m' i) ≤ key (m' j)
  across_right i j p q r low high = elim (w.order i j low (omega arith) high) [
    | inl le ↦ le
    | inr t ↦ elim (Together-split xs (b, k) ys i j t) [
      | inl g ↦ absurd (omega (arith, g))
      | inr g ↦ absurd (
          ground (
            arith,
            w.apart i,
            covers i,
            Together-cover (xs ++ ys) i j i g (omega arith) (omega arith),
          ))
    ]
  ]

  across_left : (i j : ℕ) → i < b → b ≤ j → j < b + k → a ≤ i → j < a + n → key (m' i) ≤ key (m' j)
  across_left i j p q r low high = elim (w.order i j low (omega arith) high) [
    | inl le ↦ le
    | inr t ↦ elim (Together-split xs (b, k) ys i j t) [
      | inl g ↦ absurd (omega (arith, g))
      | inr g ↦ absurd (
          ground (
            arith,
            w.apart j,
            covers j,
            Together-cover (xs ++ ys) i j j g (omega arith) (omega arith),
          ))
    ]
  ]

  contained : (i : ℕ) → b ≤ i → i < b + k → (a ≤ i) × (i < a + n)
  contained i p q = (
    elim (dec_le a i) [
      | yes le ↦ le
      | no lt ↦ absurd (ground (arith, covers i, w.inside i (inl (omega (arith, lt)))))
    ],
    elim (dec_lt i (a + n)) [
      | yes lt ↦ lt
      | no ge ↦ absurd (ground (arith, covers i, w.inside i (inr (omega (arith, ge)))))
    ],
  )

  part_le : k ≤ n
  part_le = elim (dec_le k n) [
    | yes le ↦ le
    | no gt ↦ absurd (
        omega (
          arith,
          gt,
          contained b (omega arith) (omega (arith, gt)),
          contained (b + (k - 1)) (omega arith) (omega (arith, gt)),
        ))
  ]

  module _ (o : Outcome E) (x : Sorts key forks m' b k o) where
    outside_same : (i : ℕ) → (i < b) ⊎ (b + k ≤ i) → x.mem i ≡ m' i
    outside_same i h = Shuffle-outside i h x.shuffle

    work-order :
        (i j : ℕ)
        → a ≤ i
        → i < j
        → j < a + n
        → (key (x.mem i) ≤ key (x.mem j)) ⊎ Together (x.parts ++ (xs ++ ys)) i j
    work-order i j p q r = elim (Bool-cases (leb b i && ltb i (b + k))) [
      | inl e ↦
          let b_i : b ≤ i = ground (arith, e) in
          let i_k : i < b + k = ground (arith, e) in
          elim (dec_lt j (b + k)) [
            | yes lt ↦ elim (x.order i j b_i q lt) [
              | inl le ↦ inl le
              | inr t ↦ inr (Together-front x.parts (xs ++ ys) i j t)
            ]
            | no ge ↦
                let le =
                  Shuffle-all (λ z. key z ≤ key (m' j)) x.shuffle
                    (λ c lo hi. across_right c j lo hi (omega (arith, ge)) (contained c lo hi).0 r)
                    i b_i i_k in
                inl (ground (arith, le, ap key (outside_same j (inr (omega (arith, ge))))))
          ]
      | inr e ↦
          let i_out : (i < b) ⊎ (b + k ≤ i) = ground (arith, e) in
          elim (Bool-cases (leb b j && ltb j (b + k))) [
            | inl e' ↦
                let b_j : b ≤ j = ground (arith, e') in
                let j_k : j < b + k = ground (arith, e') in
                let i_b : i < b = omega (arith, i_out, q, j_k) in
                let le =
                  Shuffle-all (λ z. key (m' i) ≤ key z) x.shuffle
                    (λ c lo hi. across_left i c i_b lo hi p (contained c lo hi).1) j b_j j_k in
                inl (ground (arith, le, ap key (outside_same i i_out)))
            | inr e' ↦
                let j_out : (j < b) ⊎ (b + k ≤ j) = ground (arith, e') in
                elim (w.order i j p q r) [
                  | inl le ↦ inl (
                      ground
                        (arith, le, ap key (outside_same i i_out), ap key (outside_same j j_out)))
                  | inr t ↦ elim (Together-split xs (b, k) ys i j t) [
                    | inl g ↦ absurd (omega (arith, g, i_out, q))
                    | inr g ↦ inr (Together-back x.parts (xs ++ ys) i j g)
                  ]
                ]
          ]
    ]

    work-Waits : Waits key m a n x.mem (x.parts ++ (xs ++ ys))
    work-Waits = record {
      shuffle = trans w.shuffle (within x.shuffle);
      order = work-order;
      apart = λ i.
          ground
            (arith, w.apart i, covers i, x.apart i, x.inside i, cover-append x.parts (xs ++ ys) i);
      inside = λ i h.
          ground (arith, w.inside i h, covers i, x.inside i, cover-append x.parts (xs ++ ys) i);
    }
      where
        within : {f g : ℕ → E} → Shuffle b (b + k) f g → Shuffle a (a + n) f g
        within done = done
        within (exchange i j p q r t rest) =
            exchange i j (contained i p q).0 (contained i p q).1 (contained j r t).0
              (contained j r t).1 (within rest)

some_inj : {A : Type 0} (x y : A) → some x ≡ some y → x ≡ y
some_inj {A} x y e = ap (λ (o : Option A). elim o [ none ↦ x | some z ↦ z ]) e

module _ {E : Type 0} (cmp : E → E → ℤ) (key : E → ℕ) (laws : Compares cmp key) (es : ℕ)
    (forks : ℕ → ℕ → ℕ → Bool) (m : ℕ → E) (a n : ℕ) (fits : Fits es n) where
  pub Work-Waits :
      {s t : Pool E}
      → Work cmp es forks s t
      → Waits key m a n s.mem s.waiting
      → Waits key m a n t.mem t.waiting
  Work-Waits {s} (work xs ys p {m = m₂} {given = given} at run) w =
      let w' = subst (Waits key m a n s.mem) at w in
      let fits' = Fits-le es p.1 n (part_le key forks m s.mem a n xs p.0 p.1 ys w') fits in
      let x = qsort_algo-Sorts cmp key laws es forks (p.1 + 1) s.mem p.0 p.1 fits' (omega arith) in
      subst (λ (z : (ℕ → E) × List Part). Waits key m a n z.0 (z.1 ++ (xs ++ ys)))
        (some_inj (x.mem, x.parts) (m₂, given) (sym x.run ∙ run))
        (work-Waits key forks m s.mem a n xs p.0 p.1 ys w'
          (qsort_algo cmp es forks (p.1 + 1) s.mem p.0 p.1) x)

  pub Runs-Waits :
      {t : Pool E} → Runs cmp es forks (whole m a n) t → Waits key m a n t.mem t.waiting
  Runs-Waits start = record {
    shuffle = done;
    order = λ i j p q r. inr (inl (p, r));
    apart = λ k. ground arith;
    inside = λ k h. ground (arith, h);
  }
  Runs-Waits (further r st) = Work-Waits st (Runs-Waits r)
