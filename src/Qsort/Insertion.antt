-- ===== src/Qsort/Insertion.antt =====
-- The insertion sort sorts, by exchanges of neighbours that are out of order.
use linux_summer.Prelude.{ℕ, zero, suc, ◌+◌, ◌≤◌, ◌<◌, ◌≡◌, ◌≢◌, Bool-cases, inl, inr, arith}
use linux_summer.Prelude.Int.{ℤ, is_pos}
use linux_summer.Qsort.{swap, sink, insert_from}
use linux_summer.Qsort.Shuffle.{Shuffle, done, exchange}
use linux_summer.Qsort.Order.{Compares, Sorted}

pub data Calm {E : Type 0} (key : E → ℕ) (lo hi : ℕ) : (ℕ → E) → (ℕ → E) → Type 0 where
  calm : {m : ℕ → E} → Calm key lo hi m m
  calmer :
      {m m' : ℕ → E} (i j : ℕ)
      → j ≡ i + 1
      → lo ≤ i
      → j < hi
      → key (m j) < key (m i)
      → Calm key lo hi (swap m j i) m'
      → Calm key lo hi m m'

-- In order from `a` to before `top` but for the element at `p`, which is at most those after it.
pub record Hole {E : Type 0} (key : E → ℕ) (m : ℕ → E) (a p top : ℕ) : Type 0 where
  pub others : (i j : ℕ) → a ≤ i → i < j → j < top → i ≢ p → j ≢ p → key (m i) ≤ key (m j)
  pub below : (j : ℕ) → p < j → j < top → key (m p) ≤ key (m j)

module _ {E : Type 0} {key : E → ℕ} {lo hi : ℕ} where
  pub Calm-Shuffle : {m m' : ℕ → E} → Calm key lo hi m m' → Shuffle lo hi m m'
  Calm-Shuffle calm = done
  Calm-Shuffle (calmer i j e a b c r) =
      exchange j i (omega arith) b a (omega arith) (Calm-Shuffle r)

  pub Calm-trans :
      {m m' m'' : ℕ → E} → Calm key lo hi m m' → Calm key lo hi m' m'' → Calm key lo hi m m''
  Calm-trans calm s = s
  Calm-trans (calmer i j e a b c r) s = calmer i j e a b c (Calm-trans r s)

module _ {E : Type 0} (cmp : E → E → ℤ) (key : E → ℕ) (laws : Compares cmp key) where
  pub swap-Hole :
      (k a top : ℕ) (m : ℕ → E)
      → a + suc k < top
      → Hole key m a (a + suc k) top
      → key (m (a + suc k)) < key (m (a + k))
      → Hole key (swap m (a + suc k) (a + k)) a (a + k) top
  unfolding swap
  swap-Hole k a top m inside h less = record {
    others = λ i j p q r s t.
        ground (arith, h.others i j, h.others i (a + k), h.below j, h.others (a + k) j);
    below = λ j p q. ground (arith, h.below j);
  }

  sink-Sorted :
      (k a top : ℕ) (m : ℕ → E)
      → a + k < top
      → Hole key m a (a + k) top
      → Sorted key (sink cmp k a m) a top
  unfolding sink
  sink-Sorted zero a top m inside h = λ i j p q r. ground (arith, h.others i j, h.below j)
  sink-Sorted (suc k) a top m inside h =
      elim (Bool-cases (is_pos (cmp (m (a + k)) (m (a + suc k))))) [
        | inl e ↦
            let less : key (m (a + suc k)) < key (m (a + k)) =
              ground (arith, e, laws.more (m (a + k)) (m (a + suc k))) in
            rw e (
              sink-Sorted k a top (swap m (a + suc k) (a + k)) (omega arith)
                (swap-Hole k a top m inside h less))
        | inr e ↦ rw e (λ i j p q r. ground (
          arith,
          e,
          laws.more (m (a + k)) (m (a + suc k)),
          h.others i j,
          h.others i (a + k),
          h.below j,
        ))
      ]

  pub sink-Calm : (k a hi : ℕ) (m : ℕ → E) → a + k < hi → Calm key a hi m (sink cmp k a m)
  unfolding sink
  sink-Calm zero a hi m inside = calm
  sink-Calm (suc k) a hi m inside = elim (Bool-cases (is_pos (cmp (m (a + k)) (m (a + suc k))))) [
    | inl e ↦ rw e (
        calmer (a + k) (a + suc k) (omega arith) (omega arith) inside
          (ground (arith, e, laws.more (m (a + k)) (m (a + suc k))))
          (sink-Calm k a hi (swap m (a + suc k) (a + k)) (omega arith)))
    | inr e ↦ rw e calm
  ]

  pub insert_from-Calm :
      (rounds k a hi : ℕ) (m : ℕ → E)
      → a + k + rounds ≤ hi
      → Calm key a hi m (insert_from cmp rounds k a m)
  unfolding insert_from
  insert_from-Calm zero k a hi m inside = calm
  insert_from-Calm (suc rounds) k a hi m inside =
      Calm-trans (sink-Calm k a hi m (omega arith))
        (insert_from-Calm rounds (k + 1) a hi (sink cmp k a m) (omega arith))

  pub insert_from-Sorted :
      (rounds k a : ℕ) (m : ℕ → E)
      → Sorted key m a (a + k)
      → Sorted key (insert_from cmp rounds k a m) a (a + k + rounds)
  unfolding insert_from
  insert_from-Sorted zero k a m s i j p q r = s i j p q (omega arith)
  insert_from-Sorted (suc rounds) k a m s i j p q r =
      insert_from-Sorted rounds (k + 1) a (sink cmp k a m)
        (λ i' j' p' q' r'.
          sink-Sorted k a (a + k + 1) m (omega arith) hole i' j' p' q' (omega arith))
        i j p q (omega arith)
    where
      hole : Hole key m a (a + k) (a + k + 1)
      hole = record {
        others = λ i' j' p' q' r' s' t'. s i' j' p' q' (omega arith);
        below = λ j' p' q'. absurd (omega arith);
      }
