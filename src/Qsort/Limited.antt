-- ===== src/Qsort/Limited.antt =====
-- The insertion sort that gives up: what it has done by then, and that it sorts if it goes through.
use linux_summer.Prelude.{
  ℕ, zero, suc, ◌+◌, ◌-◌, ◌≤◌, ◌<◌, ◌≡◌, refl, ap, ◌∙◌, true, Bool-cases, inl, inr, ◌==◌, arith,
}
use linux_summer.Prelude.Int.{ℤ, is_pos}
use linux_summer.Qsort.{swap, sink, sink_limited, insert_from, insert_limited}
use linux_summer.Qsort.Order.{Compares}
use linux_summer.Qsort.Insertion.{Calm, calm, calmer, Calm-trans}

module _ {E : Type 0} (cmp : E → E → ℤ) (key : E → ℕ) (laws : Compares cmp key) where
  pub sink_limited-Calm :
      (k a room hi : ℕ) (m : ℕ → E) → a + k < hi → Calm key a hi m (sink_limited cmp k a room m).0
  unfolding sink_limited
  sink_limited-Calm zero a room hi m inside = calm
  sink_limited-Calm (suc k) a room hi m inside =
      let less : is_pos (cmp (m (a + k)) (m (a + suc k))) ≡ true
          → key (m (a + suc k)) < key (m (a + k)) =
        λ e. ground (arith, e, laws.more (m (a + k)) (m (a + suc k))) in
      elim (Bool-cases (is_pos (cmp (m (a + k)) (m (a + suc k))))) [
        | inl e ↦ rw e (elim (Bool-cases (room == 0)) [
          | inl z ↦
              rw z (calmer (a + k) (a + suc k) (omega arith) (omega arith) inside (less e) calm)
          | inr z ↦ rw z (
              calmer (a + k) (a + suc k) (omega arith) (omega arith) inside (less e)
                (sink_limited-Calm k a (room - 1) hi (swap m (a + suc k) (a + k)) (omega arith)))
        ])
        | inr e ↦ rw e calm
      ]

  pub insert_limited-Calm :
      (rounds k a room hi : ℕ) (m : ℕ → E)
      → a + k + rounds ≤ hi
      → Calm key a hi m (insert_limited cmp rounds k a room m).0
  unfolding insert_limited
  insert_limited-Calm zero k a room hi m inside = calm
  insert_limited-Calm (suc rounds) k a room hi m inside =
      let t = sink_limited cmp k a room m in
      let first = sink_limited-Calm k a room hi m (omega arith) in
      elim (Bool-cases t.2) [
        | inl e ↦
            rw e (Calm-trans first (insert_limited-Calm rounds (k + 1) a t.1 hi t.0 (omega arith)))
        | inr e ↦ rw e first
      ]

module _ {E : Type 0} (cmp : E → E → ℤ) where
  sink_limited_lem :
      (k a room : ℕ) (m : ℕ → E)
      → (sink_limited cmp k a room m).2 ≡ true
      → (sink_limited cmp k a room m).0 ≡ sink cmp k a m
  unfolding sink_limited sink
  sink_limited_lem zero a room m = λ e. refl
  sink_limited_lem (suc k) a room m = elim (Bool-cases (is_pos (cmp (m (a + k)) (m (a + suc k))))) [
    | inl t ↦ rw t (elim (Bool-cases (room == 0)) [
      | inl z ↦ rw z (λ e. cc)
      | inr z ↦ rw z (sink_limited_lem k a (room - 1) (swap m (a + suc k) (a + k)))
    ])
    | inr t ↦ rw t (λ e. refl)
  ]

  pub insert_limited_lem :
      (rounds k a room : ℕ) (m : ℕ → E)
      → (insert_limited cmp rounds k a room m).1 ≡ true
      → (insert_limited cmp rounds k a room m).0 ≡ insert_from cmp rounds k a m
  unfolding insert_limited insert_from
  insert_limited_lem zero k a room m = λ e. refl
  insert_limited_lem (suc rounds) k a room m =
      let t = sink_limited cmp k a room m in
      elim (Bool-cases t.2) [
        | inl g ↦ rw g (λ e.
            insert_limited_lem rounds (k + 1) a t.1 t.0 e
            ∙ ap (insert_from cmp rounds (k + 1) a) (sink_limited_lem k a room m g))
        | inr g ↦ rw g (λ e. cc)
      ]
