-- ===== src/Mpmc/Moves.antt =====
-- The exchanges and the write of the enqueuer and of the dequeuer.
use linux_summer.Prelude.{
  ℕ, ◌<◌, ◌≡◌, ◌≢◌, refl, sym, ap, subst, ◌∙◌, ◌⊎◌, inl, inr, true, false, none, some, update,
  update-eq, update-ne, ℕ_discrete, dec_lt, arith,
}
use linux_summer.Mpmc.{Cell, null, item, futex, outside, putting, notifying, System}
use linux_summer.Mpmc.Cells.{
  Phase, fresh, parked, full, taken, handing, handed, content, is_put, is_free, Tickets, waits,
  Waits, Knows, Inv,
}
use linux_summer.Mpmc.Quiet.{unawaited}
use linux_summer.Mpmc.Phases.{advance}

pub content_null : (v : ℕ) (f : Phase) → content v f ≡ null → f ≡ fresh
content_null v fresh e = refl
content_null v (parked j) e = cc
content_null v full e = cc
content_null v (taken j) e = cc
content_null v (handing j) e = cc
content_null v (handed j) e = cc

parked_of : (v : ℕ) (f : Phase) → is_put f ≡ false → content v f ≢ null → (j : ℕ) × (f ≡ parked j)
parked_of v fresh e ne = absurd (ne refl)
parked_of v (parked j) e ne = (j, refl)
parked_of v full e ne = cc
parked_of v (taken j) e ne = cc
parked_of v (handing j) e ne = cc
parked_of v (handed j) e ne = cc

pub full_of : (v : ℕ) (f : Phase) → is_free f ≡ true → content v f ≢ null → f ≡ full
full_of v fresh e ne = absurd (ne refl)
full_of v (parked j) e ne = cc
full_of v full e ne = refl
full_of v (taken j) e ne = cc
full_of v (handing j) e ne = cc
full_of v (handed j) e ne = cc

module _ (s : System) (g : Tickets) (t i : ℕ) (x : Inv s g) where
  pub written :
      (c : Cell) (f : Phase)
      → c ≡ content (s.sent i) f
      → (k : ℕ) → update s.cell i c k ≡ content (s.sent k) (update g.phase i f k)
  written c f e k = elim (ℕ_discrete i k) [
    | yes q ↦
        update-eq s.cell i k c q
        ∙ e
        ∙ ap (λ z. content (s.sent z) f) q
        ∙ ap (content (s.sent k)) (sym (update-eq g.phase i k f q))
    | no ne ↦
        update-ne s.cell i k c ne
        ∙ x.cells k
        ∙ ap (content (s.sent k)) (sym (update-ne g.phase i k f ne))
  ]

  -- A waiter of another ticket, where no futex is written.
  pub elsewhere :
      (f : Phase) (u k : ℕ)
      → (i ≡ k → Waits s g u i → Waits s (record g { phase = update g.phase i f }) u k)
      → Waits s g u k
      → Waits s (record g { phase = update g.phase i f }) u k
  elsewhere f u k here w = elim (ℕ_discrete i k) [
    | yes q ↦ here q (subst (Waits s g u) (sym q) w)
    | no ne ↦
        subst
          (λ z.
            ((s.futex_addr u ≡ 1) × ((z ≡ parked u) ⊎ (z ≡ handing u)))
            ⊎ ((s.futex_addr u ≡ 0) × (z ≡ handed u)))
          (sym (update-ne g.phase i k f ne)) w
  ]

  pub untouched :
      (f : Phase)
      → g.phase i ≡ f
      → (u : ℕ) → Waits s g u i
      → (f ≡ parked u) ⊎ ((f ≡ handing u) ⊎ (f ≡ handed u))
  untouched f e u (inl (a, inl b)) = inl (sym e ∙ b)
  untouched f e u (inl (a, inr b)) = inr (inl (sym e ∙ b))
  untouched f e u (inr (a, b)) = inr (inr (sym e ∙ b))

  pub popped : is_free (g.phase i) ≡ false → i < s.pop_index
  popped e = elim (dec_lt i s.pop_index) [
    | yes lt ↦ lt
    | no ge ↦ cc (e, (x.unpopped i (omega arith)).0)
  ]

  pub is_issued : is_put (g.phase i) ≡ true → i < s.put_index
  is_issued e = elim (dec_lt i s.put_index) [
    | yes lt ↦ lt
    | no ge ↦ cc (e, x.unput i (omega arith))
  ]

  pub not_waiting :
      {A : Type 0} (k : ℕ)
      → waits (s.pc t) ≡ none
      → (g.phase k ≡ parked t) ⊎ (g.phase k ≡ handing t)
      → A
  not_waiting k e (inl z) = absurd ((unawaited s g t x e k).0 z)
  not_waiting k e (inr z) = absurd ((unawaited s g t x e k).1 z)

  pub put-Inv :
      (v : ℕ)
      → s.pc t ≡ putting v i
      → Knows s g t (putting v i)
      → s.cell i ≡ null
      → Inv
          (record s { cell = update s.cell i (item v); pc = update s.pc t outside })
          (record g { phase = update g.phase i full })
  put-Inv v e (mine, lt, sent, free) c =
      let f : g.phase i ≡ fresh = content_null (s.sent i) (g.phase i) (sym (x.cells i) ∙ c) in
      advance s g t i full outside (update s.cell i (item v)) s.futex_addr x
        (record {
          cells = written (item v) full (ap item (sym sent));
          unput = inl lt;
          unpopped = inr refl;
          stays_put = λ z. refl;
          waited = λ j o. elim o [ inl z ↦ cc | inr z ↦ cc ];
          others_wait = λ k ne o. not_waiting k (ap waits e) o;
          for_putter = λ ne. absurd (ne mine);
          for_popper = λ ne. (λ z. refl, λ z. refl, λ j z. cc (f, z));
          for_spinner = λ u ne w. refl;
          for_waiter = λ u k ne w z.
              elsewhere full u k
                (λ q y. elim (untouched fresh f u y) [
                  | inl z ↦ cc
                  | inr o ↦ elim o [ inl z ↦ cc | inr z ↦ cc ]
                ])
                z;
        })
        tt

  pub put_found-Inv :
      (v : ℕ)
      → s.pc t ≡ putting v i
      → Knows s g t (putting v i)
      → s.cell i ≢ null
      → (j : ℕ) × Inv
          (record s {
            cell = update s.cell i (item v);
            pc = update s.pc t (notifying (s.cell i) i);
          })
          (record g { phase = update g.phase i (handing j) })
  put_found-Inv v e (mine, lt, sent, free) c =
      let (j, f) = parked_of (s.sent i) (g.phase i) free (λ z. c (x.cells i ∙ z)) in
      let cv : s.cell i ≡ futex j = x.cells i ∙ ap (content (s.sent i)) f in
      let j_waits : waits (s.pc j) ≡ some i = x.waiters i j (inl f) in
      let ne_j : t ≢ j = λ q. cc (j_waits, ap s.pc q, e) in
      (
        j,
        advance s g t i (handing j) (notifying (s.cell i) i) (update s.cell i (item v)) s.futex_addr
            x
            (record {
              cells = written (item v) (handing j) (ap item (sym sent));
              unput = inl lt;
              unpopped = inl (popped (ap is_free f));
              stays_put = λ z. refl;
              waited = λ k o. elim o [
                | inl z ↦ cc
                | inr z ↦
                    (let same : j ≡ k = ground (arith, z) in
                      subst (λ y. waits (update s.pc t (notifying (s.cell i) i) y) ≡ some i) same
                        (ap waits (update-ne s.pc t j (notifying (s.cell i) i) ne_j) ∙ j_waits))
              ];
              others_wait = λ k ne o. not_waiting k (ap waits e) o;
              for_putter = λ ne. absurd (ne mine);
              for_popper = λ ne. (λ z. cc (f, z), λ z. refl, λ k z. cc (f, z));
              for_spinner = λ u ne w. refl;
              for_waiter = λ u k ne w z.
                  elsewhere (handing j) u k
                    (λ q y. elim y [
                      | inl (a, o) ↦ inl (
                        a,
                        inr (update-eq g.phase i k (handing j) q ∙ ap handing (to_waiter u j f o)),
                      )
                      | inr (a, b) ↦ cc (f, b)
                    ])
                    z;
            })
            (mine, lt, (j, cv, update-eq g.phase i i (handing j) refl)),
      )
    where
      to_waiter :
          (u j : ℕ)
          → g.phase i ≡ parked j
          → (g.phase i ≡ parked u) ⊎ (g.phase i ≡ handing u)
          → j ≡ u
      to_waiter u j f (inl z) = ground (arith, sym f ∙ z)
      to_waiter u j f (inr z) = cc (f, z)
