-- ===== src/Mpmc/Parking.antt =====
-- The exchange of the dequeuer, and the write of the enqueuer to the futex that it found.
use linux_summer.Prelude.{
  ℕ, ◌<◌, ◌≡◌, ◌≢◌, refl, sym, ap, subst, ◌∙◌, ◌⊎◌, inl, inr, some, update, update-eq, update-ne,
  ℕ_discrete, arith,
}
use linux_summer.Mpmc.{null, futex, Pc, notifying, waking, parking, waiting, over, System}
use linux_summer.Mpmc.Cells.{
  fresh, parked, full, taken, handing, handed, content, is_put, is_free, Tickets, waits, Waits,
  Knows, Inv,
}
use linux_summer.Mpmc.Phases.{advance}
use linux_summer.Mpmc.Moves.{
  content_null, full_of, written, elsewhere, untouched, popped, is_issued, not_waiting,
}

module _ (s : System) (g : Tickets) (t i : ℕ) (x : Inv s g) where
  at_place : (p : Pc) → waits p ≡ some i → (j : ℕ) → t ≡ j → waits (update s.pc t p j) ≡ some i
  at_place p e j q = ap waits (update-eq s.pc t j p q) ∙ e

  pub park-Inv :
      s.pc t ≡ parking i
      → Knows s g t (parking i)
      → s.cell i ≡ null
      → Inv
          (record s { cell = update s.cell i (futex t); pc = update s.pc t (waiting i) })
          (record g { phase = update g.phase i (parked t) })
  park-Inv e (d, free, one) c =
      let f : g.phase i ≡ fresh = content_null (s.sent i) (g.phase i) (sym (x.cells i) ∙ c) in
      advance s g t i (parked t) (waiting i) (update s.cell i (futex t)) s.futex_addr x
        (record {
          cells = written s g t i x (futex t) (parked t) refl;
          unput = inr refl;
          unpopped = inl d.issued;
          stays_put = λ z. cc (f, z);
          waited = λ j o. elim o [
            | inl z ↦ at_place (waiting i) refl j (ground (arith, z))
            | inr z ↦ cc
          ];
          others_wait = λ k ne o. not_waiting s g t i x k (ap waits e) o;
          for_putter = λ ne. (λ z. refl, λ j z. cc (f, z));
          for_popper = λ ne. absurd (ne d.mine);
          for_spinner = λ u ne w. refl;
          for_waiter = λ u k ne w z.
              elsewhere s g t i x (parked t) u k
                (λ q y. elim (untouched s g t i x fresh f u y) [
                  | inl z ↦ cc
                  | inr o ↦ elim o [ inl z ↦ cc | inr z ↦ cc ]
                ])
                z;
        })
        (
          record { mine = d.mine; issued = d.issued; unreturned = d.unreturned },
          inl (one, inl (update-eq g.phase i i (parked t) refl)),
        )

  pub park_found-Inv :
      s.pc t ≡ parking i
      → Knows s g t (parking i)
      → s.cell i ≢ null
      → Inv
          (record s { cell = update s.cell i (futex t); pc = update s.pc t (over i (s.cell i)) })
          (record g { phase = update g.phase i (taken t) })
  park_found-Inv e (d, free, one) c =
      let f : g.phase i ≡ full = full_of (s.sent i) (g.phase i) free (λ z. c (x.cells i ∙ z)) in
      advance s g t i (taken t) (over i (s.cell i)) (update s.cell i (futex t)) s.futex_addr x
        (record {
          cells = written s g t i x (futex t) (taken t) refl;
          unput = inl (is_issued s g t i x (ap is_put f));
          unpopped = inl d.issued;
          stays_put = λ z. refl;
          waited = λ j o. elim o [ inl z ↦ cc | inr z ↦ cc ];
          others_wait = λ k ne o. not_waiting s g t i x k (ap waits e) o;
          for_putter = λ ne. (λ z. cc (f, z), λ j z. cc (f, z));
          for_popper = λ ne. absurd (ne d.mine);
          for_spinner = λ u ne w. refl;
          for_waiter = λ u k ne w z.
              elsewhere s g t i x (taken t) u k
                (λ q y. elim (untouched s g t i x full f u y) [
                  | inl z ↦ cc
                  | inr o ↦ elim o [ inl z ↦ cc | inr z ↦ cc ]
                ])
                z;
        })
        (
          record { mine = d.mine; issued = d.issued; unreturned = d.unreturned },
          x.cells i ∙ ap (content (s.sent i)) f,
          ap is_put (update-eq g.phase i i (taken t) refl),
        )

  pub notify-Inv :
      (j : ℕ)
      → s.pc t ≡ notifying (futex j) i
      → g.phase i ≡ handing j
      → g.putter i ≡ t
      → i < s.put_index
      → Inv
          (record s { futex_addr = update s.futex_addr j 0; pc = update s.pc t (waking j) })
          (record g { phase = update g.phase i (handed j) })
  notify-Inv j e f mine lt =
      let j_waits : waits (s.pc j) ≡ some i = x.waiters i j (inr f) in
      advance s g t i (handed j) (waking j) s.cell (update s.futex_addr j 0) x
        (record {
          cells = λ k. elim (ℕ_discrete i k) [
            | yes q ↦
                x.cells k
                ∙ ap (content (s.sent k)) (ap g.phase (sym q) ∙ f)
                ∙ ap (content (s.sent k)) (sym (update-eq g.phase i k (handed j) q))
            | no ne ↦
                x.cells k ∙ ap (content (s.sent k)) (sym (update-ne g.phase i k (handed j) ne))
          ];
          unput = inl lt;
          unpopped = inl (popped s g t i x (ap is_free f));
          stays_put = λ z. refl;
          waited = λ k o. elim o [ inl z ↦ cc | inr z ↦ cc ];
          others_wait = λ k ne o. not_waiting s g t i x k (ap waits e) o;
          for_putter = λ ne. absurd (ne mine);
          for_popper = λ ne. (λ z. cc (f, z), λ z. refl, λ k z. cc (f, z));
          for_spinner = λ u ne w. update-ne s.futex_addr j u 0 (λ q. cc (w, j_waits, ap s.pc q));
          for_waiter = λ u k ne w z. elim (ℕ_discrete j u) [
            | yes q ↦ inr (update-eq s.futex_addr j u 0 q, own u k q (same u k q j_waits w))
            | no other ↦ apart u k other z
          ];
        })
        tt
    where
      same : (u k : ℕ) → j ≡ u → waits (s.pc j) ≡ some i → waits (s.pc u) ≡ some k → i ≡ k
      same u k q a b = ground (arith, sym a ∙ ap (λ z. waits (s.pc z)) q ∙ b)

      own : (u k : ℕ) → j ≡ u → i ≡ k → update g.phase i (handed j) k ≡ handed u
      own u k q r = update-eq g.phase i k (handed j) r ∙ ap handed q

      apart :
          (u k : ℕ)
          → j ≢ u
          → Waits s g u k
          → Waits
              (record s { futex_addr = update s.futex_addr j 0 })
              (record g { phase = update g.phase i (handed j) })
              u
              k
      apart u k other w =
          subst
            (λ a.
              ((a ≡ 1)
                × ((update g.phase i (handed j) k ≡ parked u)
                    ⊎ (update g.phase i (handed j) k ≡ handing u)))
              ⊎ ((a ≡ 0) × (update g.phase i (handed j) k ≡ handed u)))
            (sym (update-ne s.futex_addr j u 0 other))
            (elim (ℕ_discrete i k) [
              | yes q ↦ absurd (elsewhere_waits u other (subst (Waits s g u) (sym q) w))
              | no ne ↦
                  subst
                    (λ z.
                      ((s.futex_addr u ≡ 1) × ((z ≡ parked u) ⊎ (z ≡ handing u)))
                      ⊎ ((s.futex_addr u ≡ 0) × (z ≡ handed u)))
                    (sym (update-ne g.phase i k (handed j) ne)) w
            ])
        where
          elsewhere_waits : (u : ℕ) → j ≢ u → Waits s g u i → ⊥
          elsewhere_waits u ne (inl (a, inl z)) = cc (f, z)
          elsewhere_waits u ne (inl (a, inr z)) = ne (ground (arith, sym f ∙ z))
          elsewhere_waits u ne (inr (a, z)) = cc (f, z)
