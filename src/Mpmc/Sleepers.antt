-- ===== src/Mpmc/Sleepers.antt =====
-- Every step keeps what a thread that waits can count on.
use linux_summer.Prelude.{
  ℕ, ◌+◌, ◌≡◌, ◌≢◌, refl, sym, ap, subst, ◌∙◌, inl, inr, false, none, some, ◌∷◌, update, update-eq,
  update-ne, ℕ_discrete, dec_lt, arith,
}
use linux_summer.Mpmc.{
  Cell, null, item, futex, Pc, outside, putting, notifying, waking, spinning, parking, waiting,
  asleep, testing, rereading, over, System, spins,
}
use linux_summer.Mpmc.Cells.{parked, content, is_put, Tickets, waits, Waits, Knows, Inv}
use linux_summer.Mpmc.Delivery.{known}
use linux_summer.Mpmc.Wakeups.{
  not_drawn, before_put, Awake, Follows, Awake-Follows, enqueues, dequeuer,
}

waits-Waits :
    (s : System) (g : Tickets) (u i : ℕ) (p : Pc) → Knows s g u p → waits p ≡ some i → Waits s g u i
waits-Waits s g u i outside h w = cc
waits-Waits s g u i (putting v k) h w = cc
waits-Waits s g u i (notifying cv k) h w = cc
waits-Waits s g u i (waking j) h w = cc
waits-Waits s g u i (spinning k n) h w = cc
waits-Waits s g u i (parking k) h w = cc
waits-Waits s g u i (waiting k) (d, h) w =
    let q : k ≡ i = ground (arith, w) in subst (Waits s g u) q h
waits-Waits s g u i (asleep k) (d, h) w =
    let q : k ≡ i = ground (arith, w) in subst (Waits s g u) q h
waits-Waits s g u i (testing k) (d, h) w =
    let q : k ≡ i = ground (arith, w) in subst (Waits s g u) q h
waits-Waits s g u i (rereading k) h w = cc
waits-Waits s g u i (over k cv) h w = cc

module _ (s : System) (g : Tickets) (y : Inv s g) (x : Awake s) where
  -- An enqueuer that has not put finds the futex of whoever waits for its ticket.
  finds : (t u v i : ℕ) → s.pc t ≡ putting v i → waits (s.pc u) ≡ some i → s.cell i ≡ futex u
  finds t u v i e w =
      let (mine, lt, sent, free) = known s g y t (putting v i) e in
      y.cells i
      ∙ ap (content (s.sent i)) (parked_for free (waits-Waits s g u i (s.pc u) (y.threads u) w))
    where
      parked_for : is_put (g.phase i) ≡ false → Waits s g u i → g.phase i ≡ parked u
      parked_for free (inl (a, inl z)) = z
      parked_for free (inl (a, inr z)) = cc (free, z)
      parked_for free (inr (a, z)) = cc (free, z)

  -- The exchange of an enqueuer, which goes on to `q`.
  pub exchange-Awake :
      (t v i : ℕ) (q : Pc)
      → s.pc t ≡ putting v i
      → ((u : ℕ) → s.cell i ≡ futex u → q ≡ notifying (futex u) i)
      → waits q ≡ none
      → Awake (record s { cell = update s.cell i (item v); pc = update s.pc t q })
  exchange-Awake t v i q e found w =
      let s' = record s { cell = update s.cell i (item v); pc = update s.pc t q } in
      Awake-Follows s s' t q
        (record {
          moves = refl;
          index = λ k le. inl le;
          from_put = λ u k r p h.
              let same : i ≡ k = ground (arith, sym e ∙ p) in
              ap (λ z. z) (found u (finds t u v i e (h ∙ ap some (sym same))))
              ∙ ap (notifying (futex u)) same;
          from_notify = λ u k p. cc (e, p);
          from_wake = λ u k p a. cc (e, p);
          zero_stays = λ u ne z. z;
          cells = λ k lt c. elim (ℕ_discrete i k) [
            | yes r ↦ cc (sym (update-eq s.cell i k (item v) r) ∙ c)
            | no ne ↦ inl (
              lt,
              sym (update-ne s.cell i k (item v) ne) ∙ c,
              λ r p. ne (ground (arith, sym e ∙ p)),
            )
          ];
        })
        x (λ k h. cc (w, h))

module _ (s : System) (x : Awake s) where
  pub enqueue-Awake :
      (t v : ℕ)
      → s.pc t ≡ outside
      → Awake (record s {
        put_index = s.put_index + 1;
        sent = update s.sent s.put_index v;
        pc = update s.pc t (putting v s.put_index);
      })
  enqueue-Awake t v e =
      let s' = record s {
        put_index = s.put_index + 1;
        sent = update s.sent s.put_index v;
        pc = update s.pc t (putting v s.put_index);
      } in
      Awake-Follows s s' t (putting v s.put_index)
        (record {
          moves = refl;
          index = λ i le. elim (ℕ_discrete s.put_index i) [
            | yes q ↦ inr (v, ap (putting v) q)
            | no ne ↦ inl (omega (arith, le, ne))
          ];
          from_put = λ u i w p h. cc (e, p);
          from_notify = λ u i p. cc (e, p);
          from_wake = λ u i p a. cc (e, p);
          zero_stays = λ u ne z. z;
          cells = λ i lt c. elim (ℕ_discrete s.put_index i) [
            | yes q ↦ inr (v, ap (putting v) q)
            | no ne ↦ inl (omega (arith, lt, ne), c, λ w p. cc (e, p))
          ];
        })
        x (λ i h. cc)

  pub notify-Awake :
      (t j i : ℕ)
      → s.pc t ≡ notifying (futex j) i
      → Awake (record s { futex_addr = update s.futex_addr j 0; pc = update s.pc t (waking j) })
  notify-Awake t j i e =
      let s' = record s { futex_addr = update s.futex_addr j 0; pc = update s.pc t (waking j) } in
      Awake-Follows s s' t (waking j)
        (record {
          moves = refl;
          index = λ k le. inl le;
          from_put = λ u k v p h. cc (e, p);
          from_notify = λ u k p.
              let same : j ≡ u = ground (arith, sym e ∙ p) in
              (update-eq s.futex_addr j u 0 same, ap waking same);
          from_wake = λ u k p a. cc (e, p);
          zero_stays = λ u ne z. elim (ℕ_discrete j u) [
            | yes r ↦ update-eq s.futex_addr j u 0 r
            | no other ↦ update-ne s.futex_addr j u 0 other ∙ z
          ];
          cells = λ k lt c. inl (lt, c, λ v p. cc (e, p));
        })
        x (λ k h. cc)

  -- A thread that is back from waking `j`, which is not asleep.
  pub woken-Awake :
      (t j : ℕ)
      → s.pc t ≡ waking j
      → ((i : ℕ) → s.pc j ≢ asleep i)
      → Awake (record s { pc = update s.pc t outside })
  woken-Awake t j e n =
      Awake-Follows s (record s { pc = update s.pc t outside }) t outside
        (record {
          moves = refl;
          index = λ k le. inl le;
          from_put = λ u k v p h. cc (e, p);
          from_notify = λ u k p. cc (e, p);
          from_wake =
              λ u k p a. let same : j ≡ u = ground (arith, sym e ∙ p) in n k (ap s.pc same ∙ a);
          zero_stays = λ u ne z. z;
          cells = λ k lt c. inl (lt, c, λ v p. cc (e, p));
        })
        x (λ k h. cc)

  pub dequeue-Awake :
      (t : ℕ)
      → s.pc t ≡ outside
      → Awake (record s {
        pop_index = s.pop_index + 1;
        futex_addr = update s.futex_addr t 1;
        pc = update s.pc t (spinning s.pop_index spins);
      })
  dequeue-Awake t e =
      let q = spinning s.pop_index spins in
      let s' = record s {
        pop_index = s.pop_index + 1;
        futex_addr = update s.futex_addr t 1;
        pc = update s.pc t q;
      } in
      Awake-Follows s s' t q
        (dequeuer s s' t q refl (ap enqueues e) refl
          (λ u ne z. update-ne s.futex_addr t u 1 (λ r. ne (sym r)) ∙ z) (λ i c. c))
        x (λ k h. cc)

  -- The exchange of a dequeuer, which goes on to `q`.
  pub parking-Awake :
      (t i : ℕ) (q : Pc)
      → s.pc t ≡ parking i
      → ((k : ℕ) → waits q ≡ some k → (i ≡ k) × (s.cell i ≡ null))
      → Awake (record s { cell = update s.cell i (futex t); pc = update s.pc t q })
  parking-Awake t i q e w =
      let s' = record s { cell = update s.cell i (futex t); pc = update s.pc t q } in
      let m : Follows s s' t q =
        dequeuer s s' t q refl (ap enqueues e) refl (λ u ne z. z)
          (λ k c. elim (ℕ_discrete i k) [
            | yes r ↦ cc (sym (update-eq s.cell i k (futex t) r) ∙ c)
            | no ne ↦ sym (update-ne s.cell i k (futex t) ne) ∙ c
          ]) in
      Awake-Follows s s' t q m x (λ k h.
        let (same, c) = w k h in
        elim (dec_lt k s.put_index) [
          | no ge ↦ not_drawn (omega (arith, ge))
          | yes lt ↦
              (let (u, v, p) = x.putters k lt (ap s.cell (sym same) ∙ c) in
                let ne : t ≢ u = λ r. cc (e, p, ap s.pc r) in
                before_put u v (update-ne s.pc t u q ne ∙ p))
        ])

  pub return-Awake :
      (t i : ℕ) (cv : Cell)
      → s.pc t ≡ over i cv
      → Awake (record s {
        received = update s.received i (cv ∷ s.received i);
        pc = update s.pc t outside;
      })
  return-Awake t i cv e =
      let s' = record s {
        received = update s.received i (cv ∷ s.received i);
        pc = update s.pc t outside;
      } in
      Awake-Follows s s' t outside
        (dequeuer s s' t outside refl (ap enqueues e) refl (λ u ne z. z) (λ k c. c)) x (λ k h. cc)
