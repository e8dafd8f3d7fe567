-- ===== src/Mpmc/Writes.antt =====
-- The steps that draw a ticket or return from a call, and what a step has to show that takes a ticket to
-- its next phase.
use linux_summer.Prelude.{
  ℕ, ◌+◌, ◌≡◌, refl, sym, ap, subst, ◌∙◌, ◌⊎◌, inl, inr, false, none, some, [], ◌∷◌, update,
  update-eq, update-ne, ℕ_discrete, arith,
}
use linux_summer.Mpmc.{Cell, item, Pc, outside, putting, spinning, over, System, spins}
use linux_summer.Mpmc.Cells.{
  Phase, fresh, parked, full, taken, handing, handed, content, is_put, Tickets, waits, Knows, Inv,
}
use linux_summer.Mpmc.Others.{threads-Tame}

content_unput : (v w : ℕ) (p : Phase) → is_put p ≡ false → content v p ≡ content w p
content_unput v w fresh e = refl
content_unput v w (parked j) e = refl
content_unput v w full e = cc
content_unput v w (taken j) e = cc
content_unput v w (handing j) e = cc
content_unput v w (handed j) e = cc

-- The mover waits for no ticket, before or after.
waiters_kept :
    (s : System) (g : Tickets) (t : ℕ) (p : Pc)
    → Inv s g
    → waits (s.pc t) ≡ none
    → (i j : ℕ) → (g.phase i ≡ parked j) ⊎ (g.phase i ≡ handing j)
    → waits (update s.pc t p j) ≡ some i
waiters_kept s g t p x e i j o = elim (ℕ_discrete t j) [
  | yes q ↦ absurd (cc (x.waiters i j o, e, ap s.pc q))
  | no ne ↦ ap waits (update-ne s.pc t j p ne) ∙ x.waiters i j o
]

pub enqueue-Inv :
    (s : System) (g : Tickets) (t v : ℕ)
    → Inv s g
    → s.pc t ≡ outside
    → Inv
        (record s {
          put_index = s.put_index + 1;
          sent = update s.sent s.put_index v;
          pc = update s.pc t (putting v s.put_index);
        })
        (record g { putter = update g.putter s.put_index t })
enqueue-Inv s g t v x e =
    let n = s.put_index in
    let s' = record s {
      put_index = n + 1;
      sent = update s.sent n v;
      pc = update s.pc t (putting v n);
    } in
    let g' = record g { putter = update g.putter n t } in
    record {
      cells = λ i. elim (ℕ_discrete n i) [
        | yes q ↦
            x.cells i
            ∙ content_unput (s.sent i) (update s.sent n v i) (g.phase i)
                (x.unput i (omega (arith, q)))
        | no ne ↦ x.cells i ∙ ap (λ z. content z (g.phase i)) (sym (update-ne s.sent n i v ne))
      ];
      unput = λ i le. x.unput i (omega arith);
      unpopped = x.unpopped;
      results = λ i. elim (x.results i) [
        | inl z ↦ inl z
        | inr (z, h) ↦ inr (ground (arith, z, x.unput i, h), h)
      ];
      waiters = waiters_kept s g t (putting v n) x (ap waits e);
      threads =
          threads-Tame t s g s' g' x
            (record {
              put_le = omega arith;
              pop_le = omega arith;
              putter = λ i lt. (ground arith, ground arith);
              popper = λ i lt. refl;
              received = λ i lt ne. refl;
              for_putter = λ i lt ne. (λ z. z, λ j z. z);
              for_popper = λ i lt ne. (λ z. z, λ z. z, λ j z. z);
              for_spinner = λ u ne w. refl;
              for_waiter = λ u i ne m w z. z;
            })
            (putting v n) refl (ground arith, omega arith, ground arith, x.unput n (omega arith));
    }

pub dequeue-Inv :
    (s : System) (g : Tickets) (t : ℕ)
    → Inv s g
    → s.pc t ≡ outside
    → Inv
        (record s {
          pop_index = s.pop_index + 1;
          futex_addr = update s.futex_addr t 1;
          pc = update s.pc t (spinning s.pop_index spins);
        })
        (record g { popper = update g.popper s.pop_index t })
dequeue-Inv s g t x e =
    let n = s.pop_index in
    let s' = record s {
      pop_index = n + 1;
      futex_addr = update s.futex_addr t 1;
      pc = update s.pc t (spinning n spins);
    } in
    let g' = record g { popper = update g.popper n t } in
    record {
      cells = x.cells;
      unput = x.unput;
      unpopped = λ i le. x.unpopped i (omega arith);
      results = x.results;
      waiters = waiters_kept s g t (spinning n spins) x (ap waits e);
      threads =
          threads-Tame t s g s' g' x
            (record {
              put_le = omega arith;
              pop_le = omega arith;
              putter = λ i lt. (refl, refl);
              popper = λ i lt. ground arith;
              received = λ i lt ne. refl;
              for_putter = λ i lt ne. (λ z. z, λ j z. z);
              for_popper = λ i lt ne. (λ z. z, λ z. z, λ j z. z);
              for_spinner = λ u ne w. update-ne s.futex_addr t u 1 (λ q. ne (sym q));
              for_waiter = λ u i ne m w z.
                  subst
                    (λ a.
                      ((a ≡ 1) × ((g.phase i ≡ parked u) ⊎ (g.phase i ≡ handing u)))
                      ⊎ ((a ≡ 0) × (g.phase i ≡ handed u)))
                    (sym (update-ne s.futex_addr t u 1 (λ q. ne (sym q)))) z;
            })
            (spinning n spins) refl
            (
              record {
                mine = ground arith;
                issued = omega arith;
                unreturned = (x.unpopped n (omega arith)).1;
              },
              (x.unpopped n (omega arith)).0,
              ground arith,
            );
    }

pub return-Inv :
    (s : System) (g : Tickets) (t i : ℕ) (cv : Cell)
    → Inv s g
    → s.pc t ≡ over i cv
    → Knows s g t (over i cv)
    → Inv
        (record s {
          received = update s.received i (cv ∷ s.received i);
          pc = update s.pc t outside;
        })
        g
return-Inv s g t i cv x e (d, c, h) =
    let s' = record s {
      received = update s.received i (cv ∷ s.received i);
      pc = update s.pc t outside;
    } in
    let got : cv ∷ s.received i ≡ item (s.sent i) ∷ [] = cc (c, d.unreturned) in
    record {
      cells = x.cells;
      unput = x.unput;
      unpopped = λ k le. ((x.unpopped k le).0, ground (arith, x.unpopped k le, d.issued));
      results = λ k. elim (ℕ_discrete i k) [
        | yes q ↦ inr (
          update-eq s.received i k (cv ∷ s.received i) q ∙ got ∙ ap (λ z. item (s.sent z) ∷ []) q,
          ap (λ z. is_put (g.phase z)) (sym q) ∙ h,
        )
        | no ne ↦ elim (x.results k) [
          | inl z ↦ inl (update-ne s.received i k (cv ∷ s.received i) ne ∙ z)
          | inr (z, p) ↦ inr (update-ne s.received i k (cv ∷ s.received i) ne ∙ z, p)
        ]
      ];
      waiters = waiters_kept s g t outside x (ap waits e);
      threads =
          threads-Tame t s g s' g x
            (record {
              put_le = omega arith;
              pop_le = omega arith;
              putter = λ k lt. (refl, refl);
              popper = λ k lt. refl;
              received = λ k lt ne.
                  update-ne s.received i k (cv ∷ s.received i)
                    (λ q. ne (ap g.popper (sym q) ∙ d.mine));
              for_putter = λ k lt ne. (λ z. z, λ j z. z);
              for_popper = λ k lt ne. (λ z. z, λ z. z, λ j z. z);
              for_spinner = λ u ne w. refl;
              for_waiter = λ u k ne m w z. z;
            })
            outside refl tt;
    }
