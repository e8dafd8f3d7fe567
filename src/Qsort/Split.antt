-- ===== src/Qsort/Split.antt =====
-- Both sides of the pivot in order make the whole in order.
use linux_summer.Prelude.{
  ℕ, ◌+◌, ◌-◌, ◌≤◌, ◌<◌, ◌≡◌, refl, ap₂, sym, subst, ◌∙◌, inl, inr, ◌==◌, List, [], ◌∷◌, ◌++◌, some,
  ◌>>=◌, ap, if◌then◌else◌, Bool, Bool-cases, arith, dec_lt,
}
use linux_summer.Qsort.{Part, Outcome, split}
use linux_summer.Qsort.Shuffle.{Shuffle, trans, widen, Shuffle-all, Shuffle-outside}
use linux_summer.Qsort.Gather.{Thirds}
use linux_summer.Qsort.Parts.{
  cover-append, Together-front, Together-back, Sorts, Sorts-nothing, Sorts-given,
}

module _ {E : Type 0} (key : E → ℕ) (v a n nl nr : ℕ) where
  Thirds-left :
      (m m' : ℕ → E)
      → Thirds key v a n nl nr m
      → Shuffle a (a + nl) m m'
      → Thirds key v a n nl nr m'
  Thirds-left m m' t s = record {
    fewer = t.fewer;
    low = Shuffle-all (λ x. key x < v) s t.low;
    middle = λ k p q. subst (λ z. key z ≡ v) (sym (Shuffle-outside k (inr p) s)) (t.middle k p q);
    high = λ k p q.
        subst (λ z. v < key z) (sym (Shuffle-outside k (inr (omega (arith, t.fewer))) s))
          (t.high k p q);
  }

  Thirds-right :
      (m m' : ℕ → E)
      → Thirds key v a n nl nr m
      → Shuffle (a + n - nr) (a + n) m m'
      → Thirds key v a n nl nr m'
  Thirds-right m m' t s = record {
    fewer = t.fewer;
    low = λ k p q.
        subst (λ z. key z < v) (sym (Shuffle-outside k (inl (omega (arith, t.fewer))) s))
          (t.low k p q);
    middle = λ k p q. subst (λ z. key z ≡ v) (sym (Shuffle-outside k (inl q) s)) (t.middle k p q);
    high = Shuffle-all (λ x. v < key x) s t.high;
  }

  -- Elements on different sides, or in the middle, are in order.
  Thirds-order :
      (m : ℕ → E)
      → Thirds key v a n nl nr m
      → (i j : ℕ) → a ≤ i
      → i < j
      → j < a + n
      → (a + nl ≤ j)
      → (i < a + n - nr)
      → key (m i) ≤ key (m j)
  Thirds-order m t i j p q r right left =
      ground (arith, t.low i p, t.middle i, t.middle j right, t.high j)

  right_end : nl + nr < n → a + n - nr + nr ≡ a + n
  right_end fewer = omega arith

  joined :
      (forks : ℕ → ℕ → ℕ → Bool) (m : ℕ → E)
      → Thirds key v a n nl nr m
      → (left : Outcome E) (right : (ℕ → E) → Outcome E) → Sorts key forks m a nl left
      → ((m' : ℕ → E) → Sorts key forks m' (a + n - nr) nr (right m'))
      → (m' : ℕ → E) × (ls : List Part) × (m'' : ℕ → E) × (rs : List Part) × (left ≡ some (m', ls))
        × (right m' ≡ some (m'', rs))
        × Sorts key forks m a n (some (m'', ls ++ rs))
  joined forks m t left right x y =
      let z = y x.mem in
      let end = right_end t.fewer in
      let shuffle_right : Shuffle (a + n - nr) (a + n) x.mem z.mem =
        subst (λ e. Shuffle (a + n - nr) e x.mem z.mem) end z.shuffle in
      let t' = Thirds-right x.mem z.mem (Thirds-left m x.mem t x.shuffle) shuffle_right in
      let same_left : (k : ℕ) → k < a + nl → z.mem k ≡ x.mem k =
        λ k p. Shuffle-outside k (inl (omega (arith, t.fewer))) shuffle_right in
      (
        x.mem,
        x.parts,
        z.mem,
        z.parts,
        x.run,
        z.run,
        record {
          mem = z.mem;
          parts = x.parts ++ z.parts;
          run = refl;
          shuffle =
              trans (widen a (a + n) (omega arith) (omega (arith, t.fewer)) x.shuffle)
                (widen a (a + n) (omega (arith, t.fewer)) (omega arith) shuffle_right);
          order = λ i j p q r. elim (dec_lt j (a + nl)) [
            | yes lt ↦ elim (x.order i j p q lt) [
              | inl le ↦
                  inl (
                    ground (arith, le, ap key (same_left i (omega arith)), ap key (same_left j lt)))
              | inr g ↦ inr (Together-front x.parts z.parts i j g)
            ]
            | no ge ↦ elim (dec_lt i (a + n - nr)) [
              | yes lt ↦ inl (Thirds-order z.mem t' i j p q r (omega (arith, ge)) lt)
              | no ge' ↦ elim (z.order i j (omega (arith, ge')) q (omega (arith, end))) [
                | inl le ↦ inl le
                | inr g ↦ inr (Together-back x.parts z.parts i j g)
              ]
            ]
          ];
          unforked = λ never. ap₂ (◌++◌ {A = Part}) (x.unforked never) (z.unforked never);
          apart = λ k. ground (
            arith,
            cover-append x.parts z.parts k,
            x.apart k,
            z.apart k,
            x.inside k,
            z.inside k,
            t.fewer,
          );
          inside = λ k o.
              ground (arith, cover-append x.parts z.parts k, x.inside k, z.inside k, o, t.fewer);
        },
      )

module _ {E : Type 0} (key : E → ℕ) (forks : ℕ → ℕ → ℕ → Bool)
    (sort : (ℕ → E) → ℕ → ℕ → Outcome E) where
  left_part : (ℕ → E) → ℕ → ℕ → ℕ → Outcome E
  left_part m a nl nr =
      if forks a nl nr
      then some (m, (a, nl) ∷ [])
      else (if nl == 0 then some (m, []) else sort m a nl)

  right_part : ℕ → ℕ → ℕ → (ℕ → E) → Outcome E
  right_part a n nr m = if nr == 0 then some (m, []) else sort m (a + n - nr) nr

  left_part-Sorts :
      (m : ℕ → E) (a nl nr : ℕ)
      → Sorts key forks m a nl (sort m a nl)
      → Sorts key forks m a nl (left_part m a nl nr)
  unfolding left_part
  left_part-Sorts m a nl nr s = elim (Bool-cases (forks a nl nr)) [
    | inl e ↦ rw e (Sorts-given key forks m a nl nl nr e)
    | inr e ↦ rw e (elim (Bool-cases (nl == 0)) [
      | inl z ↦ rw z (Sorts-nothing key forks m a nl (ground (arith, z)))
      | inr z ↦ rw z s
    ])
  ]

  right_part-Sorts :
      (m : ℕ → E) (a n nr : ℕ)
      → Sorts key forks m (a + n - nr) nr (sort m (a + n - nr) nr)
      → Sorts key forks m (a + n - nr) nr (right_part a n nr m)
  unfolding right_part
  right_part-Sorts m a n nr s = elim (Bool-cases (nr == 0)) [
    | inl z ↦ rw z (Sorts-nothing key forks m (a + n - nr) nr (ground (arith, z)))
    | inr z ↦ rw z s
  ]

  pub split-Sorts :
      (v a n nl nr : ℕ) (m : ℕ → E)
      → Thirds key v a n nl nr m
      → ((m' : ℕ → E) (a' n' : ℕ) → n' < n → Sorts key forks m' a' n' (sort m' a' n'))
      → Sorts key forks m a n (split forks sort m a n nl nr)
  unfolding split left_part right_part
  split-Sorts v a n nl nr m t rec =
      let (m', ls, m'', rs, lrun, rrun, s) =
        joined key v a n nl nr forks m t (left_part m a nl nr) (right_part a n nr)
          (left_part-Sorts m a nl nr (rec m a nl (omega (arith, t.fewer))))
          (λ m'. right_part-Sorts m' a n nr (rec m' (a + n - nr) nr (omega (arith, t.fewer)))) in
      subst (Sorts key forks m a n)
        (sym (
          ap
            (λ o. o >>= λ (r : (ℕ → E) × List Part).
              (right_part a n nr r.0 >>= λ (q : (ℕ → E) × List Part). some (q.0, r.1 ++ q.1)))
            lrun
          ∙ ap (λ o. o >>= λ (q : (ℕ → E) × List Part). some (q.0, ls ++ q.1)) rrun))
        s
