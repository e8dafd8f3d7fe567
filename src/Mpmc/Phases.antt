-- ===== src/Mpmc/Phases.antt =====
-- The steps that take a ticket to its next phase.
use linux_summer.Prelude.{
  ℕ, ◌<◌, ◌≡◌, ◌≢◌, refl, sym, ap, subst, ◌∙◌, ◌⊎◌, inl, inr, true, false, none, some, update,
  update-eq, update-ne, ℕ_discrete, arith,
}
use linux_summer.Mpmc.{Cell, Pc, System}
use linux_summer.Mpmc.Cells.{
  Phase, parked, handing, handed, content, is_put, is_free, Tickets, waits, Waits, Knows, Inv,
}
use linux_summer.Mpmc.Others.{threads-Tame}

-- What a step shows that takes ticket `i` to the phase `f` and its thread `t` to the place `p`.
pub record Advances (s : System) (g : Tickets) (t i : ℕ) (f : Phase) (p : Pc) (cell : ℕ → Cell)
    (futex_addr : ℕ → ℕ) : Type 0 where
  pub cells : (k : ℕ) → cell k ≡ content (s.sent k) (update g.phase i f k)
  pub unput : (i < s.put_index) ⊎ (is_put f ≡ false)
  pub unpopped : (i < s.pop_index) ⊎ (is_free f ≡ true)
  pub stays_put : is_put (g.phase i) ≡ true → is_put f ≡ true
  pub waited : (j : ℕ) → (f ≡ parked j) ⊎ (f ≡ handing j) → waits (update s.pc t p j) ≡ some i
  pub others_wait :
      (k : ℕ) → k ≢ i → (g.phase k ≡ parked t) ⊎ (g.phase k ≡ handing t) → waits p ≡ some k
  pub for_putter :
      g.putter i ≢ t
      → (is_put (g.phase i) ≡ false → is_put f ≡ false)
        × ((j : ℕ) → g.phase i ≡ handing j → f ≡ handing j)
  pub for_popper :
      g.popper i ≢ t
      → (is_free (g.phase i) ≡ true → is_free f ≡ true)
        × (is_put (g.phase i) ≡ true → is_put f ≡ true)
        × ((j : ℕ) → g.phase i ≡ handed j → f ≡ handed j)
  pub for_spinner : (u : ℕ) → u ≢ t → waits (s.pc u) ≡ none → futex_addr u ≡ s.futex_addr u
  pub for_waiter :
      (u k : ℕ)
      → u ≢ t
      → waits (s.pc u) ≡ some k
      → Waits s g u k
      → Waits (record s { futex_addr = futex_addr }) (record g { phase = update g.phase i f }) u k

module _ (s : System) (g : Tickets) (t i : ℕ) (f : Phase) (p : Pc) (cell : ℕ → Cell)
    (futex_addr : ℕ → ℕ) where
  abbrev s' : System
  s' = record s { cell = cell; futex_addr = futex_addr; pc = update s.pc t p }

  abbrev g' : Tickets
  g' = record g { phase = update g.phase i f }

  -- at the ticket, or at another one
  at :
      (P : Phase → Type 0) (k : ℕ)
      → (i ≡ k → P f)
      → (i ≢ k → P (g.phase k))
      → P (update g.phase i f k)
  at P k here there = elim (ℕ_discrete i k) [
    | yes q ↦ subst P (sym (update-eq g.phase i k f q)) (here q)
    | no ne ↦ subst P (sym (update-ne g.phase i k f ne)) (there ne)
  ]

  pub advance : Inv s g → Advances s g t i f p cell futex_addr → Knows s' g' t p → Inv s' g'
  advance x a self = record {
    cells = a.cells;
    unput = λ k le.
        at (λ z. is_put z ≡ false) k
          (λ q. elim a.unput [ inl lt ↦ absurd (omega (arith, q)) | inr z ↦ z ])
          (λ ne. x.unput k le);
    unpopped = λ k le. (
      at (λ z. is_free z ≡ true) k
          (λ q. elim a.unpopped [ inl lt ↦ absurd (omega (arith, q)) | inr z ↦ z ])
          (λ ne. (x.unpopped k le).0),
      (x.unpopped k le).1,
    );
    results = λ k. elim (x.results k) [
      | inl z ↦ inl z
      | inr (z, h) ↦ inr (
        z,
        at (λ w. is_put w ≡ true) k (λ q. a.stays_put (ap (λ w. is_put (g.phase w)) q ∙ h))
            (λ ne. h),
      )
    ];
    waiters = λ k j.
        at (λ z. (z ≡ parked j) ⊎ (z ≡ handing j) → waits (update s.pc t p j) ≡ some k) k
          (λ q o. a.waited j o ∙ ap some q)
          (λ ne o. elim (ℕ_discrete t j) [
            | yes q ↦
                ap waits (update-eq s.pc t j p q)
                ∙ a.others_wait k (λ z. ne (sym z))
                    (subst (λ z. (g.phase k ≡ parked z) ⊎ (g.phase k ≡ handing z)) (sym q) o)
            | no other ↦ ap waits (update-ne s.pc t j p other) ∙ x.waiters k j o
          ]);
    threads =
        threads-Tame t s g s' g' x
          (record {
            put_le = omega arith;
            pop_le = omega arith;
            putter = λ k lt. (refl, refl);
            popper = λ k lt. refl;
            received = λ k lt ne. refl;
            for_putter = λ k lt ne.
                at
                  (λ z.
                    (is_put (g.phase k) ≡ false → is_put z ≡ false)
                    × ((j : ℕ) → g.phase k ≡ handing j → z ≡ handing j))
                  k
                  (λ q.
                    let (c, d) = a.for_putter (λ z. ne (ap g.putter (sym q) ∙ z)) in
                    (λ e. c (ap (λ z. is_put (g.phase z)) q ∙ e), λ j e. d j (ap g.phase q ∙ e)))
                  (λ other. (λ z. z, λ j z. z));
            for_popper = λ k lt ne.
                at
                  (λ z.
                    (is_free (g.phase k) ≡ true → is_free z ≡ true)
                    × (is_put (g.phase k) ≡ true → is_put z ≡ true)
                    × ((j : ℕ) → g.phase k ≡ handed j → z ≡ handed j))
                  k
                  (λ q.
                    let (b, c, d) = a.for_popper (λ z. ne (ap g.popper (sym q) ∙ z)) in
                    (
                      λ e. b (ap (λ z. is_free (g.phase z)) q ∙ e),
                      λ e. c (ap (λ z. is_put (g.phase z)) q ∙ e),
                      λ j e. d j (ap g.phase q ∙ e),
                    ))
                  (λ other. (λ z. z, λ z. z, λ j z. z));
            for_spinner = a.for_spinner;
            for_waiter = λ u k ne m w z. a.for_waiter u k ne w z;
          })
          p refl self;
  }
