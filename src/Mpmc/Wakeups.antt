-- ===== src/Mpmc/Wakeups.antt =====
-- No wake-up is lost: what a thread that waits for its futex can count on.
use linux_summer.Prelude.{
  ℕ, ◌≤◌, ◌<◌, ◌≡◌, ◌≢◌, refl, sym, ap, subst, ◌∙◌, ◌⊎◌, inl, inr, Bool, true, false, none, some,
  update, update-eq, update-ne, ℕ_discrete, arith,
}
use linux_summer.Mpmc.{
  null, futex, Pc, outside, putting, notifying, waking, spinning, parking, waiting, asleep, testing,
  rereading, over, System,
}
use linux_summer.Mpmc.Cells.{waits}

-- Who will end the wait of thread `t` for ticket `i`.
pub data Coming (s : System) (t i : ℕ) : Type 0 where
  not_drawn : s.put_index ≤ i → Coming s t i
  before_put : (u v : ℕ) → s.pc u ≡ putting v i → Coming s t i
  before_notify : (u : ℕ) → s.pc u ≡ notifying (futex t) i → Coming s t i
  zeroed : s.futex_addr t ≡ 0 → (s.pc t ≡ asleep i → (u : ℕ) × (s.pc u ≡ waking t)) → Coming s t i

pub record Awake (s : System) : Type 0 where
  pub waiters : (t i : ℕ) → waits (s.pc t) ≡ some i → Coming s t i
  pub putters : (i : ℕ) → i < s.put_index → s.cell i ≡ null → (u v : ℕ) × (s.pc u ≡ putting v i)

-- What a step of thread `t` to the place `q` shows.
pub record Follows (s s' : System) (t : ℕ) (q : Pc) : Type 0 where
  pub moves : s'.pc ≡ update s.pc t q
  pub index : (i : ℕ) → s.put_index ≤ i → (s'.put_index ≤ i) ⊎ ((v : ℕ) × (q ≡ putting v i))
  pub from_put :
      (u i v : ℕ) → s.pc t ≡ putting v i → waits (s.pc u) ≡ some i → q ≡ notifying (futex u) i
  pub from_notify :
      (u i : ℕ) → s.pc t ≡ notifying (futex u) i → (s'.futex_addr u ≡ 0) × (q ≡ waking u)
  pub from_wake : (u i : ℕ) → s.pc t ≡ waking u → s.pc u ≢ asleep i
  pub zero_stays : (u : ℕ) → u ≢ t → s.futex_addr u ≡ 0 → s'.futex_addr u ≡ 0
  pub cells :
      (i : ℕ)
      → i < s'.put_index
      → s'.cell i ≡ null
      → ((i < s.put_index) × (s.cell i ≡ null) × ((v : ℕ) → s.pc t ≢ putting v i))
        ⊎ ((v : ℕ) × (q ≡ putting v i))

module _ (s s' : System) (t : ℕ) (q : Pc) (k : Follows s s' t q) where
  moved : s'.pc t ≡ q
  moved = ap (λ (f : ℕ → Pc). f t) k.moves ∙ update-eq s.pc t t q refl

  unmoved : (u : ℕ) → t ≢ u → s'.pc u ≡ s.pc u
  unmoved u ne = ap (λ (f : ℕ → Pc). f u) k.moves ∙ update-ne s.pc t u q ne

  pub Coming-Follows :
      (u i : ℕ)
      → waits (s.pc u) ≡ some i
      → (s.futex_addr u ≡ 0 → s'.futex_addr u ≡ 0)
      → (s.futex_addr u ≡ 0 → s'.pc u ≡ asleep i → s.pc u ≡ asleep i)
      → Coming s u i
      → Coming s' u i
  Coming-Follows u i w z a (not_drawn le) = elim (k.index i le) [
    | inl le' ↦ not_drawn le'
    | inr (v, r) ↦ before_put t v (moved ∙ r)
  ]
  Coming-Follows u i w z a (before_put r v p) = elim (ℕ_discrete t r) [
    | yes e ↦ before_notify t (moved ∙ k.from_put u i v (ap s.pc e ∙ p) w)
    | no ne ↦ before_put r v (unmoved r ne ∙ p)
  ]
  Coming-Follows u i w z a (before_notify r p) = elim (ℕ_discrete t r) [
    | yes e ↦ (let (f, g) = k.from_notify u i (ap s.pc e ∙ p) in zeroed f (λ h. (t, moved ∙ g)))
    | no ne ↦ before_notify r (unmoved r ne ∙ p)
  ]
  Coming-Follows u i w z a (zeroed f h) = zeroed (z f) (λ sl.
      let sl' = a f sl in
      let (r, p) = h sl' in
      elim (ℕ_discrete t r) [
        | yes e ↦ absurd (k.from_wake u i (ap s.pc e ∙ p) sl')
        | no ne ↦ (r, unmoved r ne ∙ p)
      ])

  pub Awake-Follows : Awake s → ((i : ℕ) → waits q ≡ some i → Coming s' t i) → Awake s'
  Awake-Follows x own = record {
    waiters = λ u i w. elim (ℕ_discrete t u) [
      | yes e ↦ subst (λ z. Coming s' z i) e (own i (ap waits (sym moved ∙ ap s'.pc e) ∙ w))
      | no ne ↦
          (let w' : waits (s.pc u) ≡ some i = ap waits (sym (unmoved u ne)) ∙ w in
            Coming-Follows u i w' (k.zero_stays u (λ e. ne (sym e)))
              (λ f sl. sym (unmoved u ne) ∙ sl) (x.waiters u i w'))
    ];
    putters = λ i lt c. elim (k.cells i lt c) [
      | inl (lt', c', away) ↦
          (let (u, v, p) = x.putters i lt' c' in
            elim (ℕ_discrete t u) [
              | yes e ↦ absurd (away v (ap s.pc e ∙ p))
              | no ne ↦ (u, v, unmoved u ne ∙ p)
            ])
      | inr (v, r) ↦ (t, v, moved ∙ r)
    ];
  }

-- whether a thread is in `mpmc_enqueue`
abbrev pub enqueues : Pc → Bool
enqueues outside = false
enqueues (putting v i) = true
enqueues (notifying cv i) = true
enqueues (waking j) = true
enqueues (spinning i n) = false
enqueues (parking i) = false
enqueues (waiting i) = false
enqueues (asleep i) = false
enqueues (testing i) = false
enqueues (rereading i) = false
enqueues (over i cv) = false

-- A step that is not of `mpmc_enqueue`.
pub dequeuer :
    (s s' : System) (t : ℕ) (q : Pc)
    → s'.pc ≡ update s.pc t q
    → enqueues (s.pc t) ≡ false
    → s'.put_index ≡ s.put_index
    → ((u : ℕ) → u ≢ t → s.futex_addr u ≡ 0 → s'.futex_addr u ≡ 0)
    → ((i : ℕ) → s'.cell i ≡ null → s.cell i ≡ null)
    → Follows s s' t q
dequeuer s s' t q m e n z c = record {
  moves = m;
  index = λ i le. inl (omega (arith, n));
  from_put = λ u i v p w. cc (e, ap enqueues p);
  from_notify = λ u i p. cc (e, ap enqueues p);
  from_wake = λ u i p a. cc (e, ap enqueues p);
  zero_stays = z;
  cells = λ i lt h. inl (omega (arith, n), c i h, λ v p. cc (e, ap enqueues p));
}

module _ (s : System) (x : Awake s) (t : ℕ) (p q : Pc) (e : s.pc t ≡ p)
    (d : enqueues p ≡ false) where
  only_place : Follows s (record s { pc = update s.pc t q }) t q
  only_place =
      dequeuer s (record s { pc = update s.pc t q }) t q refl (ap enqueues e ∙ d) refl (λ u ne z. z)
        (λ i c. c)

  -- A thread that keeps its ticket, and does not fall asleep with a futex of 0.
  pub keeps :
      waits q ≡ waits p
      → ((i : ℕ) → s.futex_addr t ≡ 0 → q ≡ asleep i → p ≡ asleep i)
      → Awake (record s { pc = update s.pc t q })
  keeps w a =
      Awake-Follows s (record s { pc = update s.pc t q }) t q only_place x
        (λ i h.
          let w' : waits (s.pc t) ≡ some i = ap waits e ∙ sym w ∙ h in
          Coming-Follows s (record s { pc = update s.pc t q }) t q only_place t i w' (λ z. z)
            (λ z sl. e ∙ a i z (sym (update-eq s.pc t t q refl) ∙ sl)) (x.waiters t i w'))

  -- A thread that waits for no ticket after the step.
  pub leaves : waits q ≡ none → Awake (record s { pc = update s.pc t q })
  leaves w = Awake-Follows s (record s { pc = update s.pc t q }) t q only_place x (λ i h. cc (w, h))
