-- ===== src/Mpmc/Others.antt =====
-- A step of one thread, as the others see it.
use linux_summer.Prelude.{
  ℕ, ◌≤◌, ◌<◌, ◌≡◌, ◌≢◌, refl, sym, ap, subst, ◌∙◌, true, false, none, some, update, update-eq,
  update-ne, ℕ_discrete, arith,
}
use linux_summer.Mpmc.{
  item, Pc, outside, putting, notifying, waking, spinning, parking, waiting, asleep, testing,
  rereading, over, System,
}
use linux_summer.Mpmc.Cells.{
  handing, handed, is_put, is_free, Tickets, waits, Drawn, Waits, Knows, Inv,
}

-- What thread `t` leaves to the others.
pub record Tame (t : ℕ) (s : System) (g : Tickets) (s' : System) (g' : Tickets) : Type 0 where
  pub put_le : s.put_index ≤ s'.put_index
  pub pop_le : s.pop_index ≤ s'.pop_index
  pub putter : (i : ℕ) → i < s.put_index → (g'.putter i ≡ g.putter i) × (s'.sent i ≡ s.sent i)
  pub popper : (i : ℕ) → i < s.pop_index → g'.popper i ≡ g.popper i
  pub received : (i : ℕ) → i < s.pop_index → g.popper i ≢ t → s'.received i ≡ s.received i
  pub for_putter :
      (i : ℕ)
      → i < s.put_index
      → g.putter i ≢ t
      → (is_put (g.phase i) ≡ false → is_put (g'.phase i) ≡ false)
        × ((j : ℕ) → g.phase i ≡ handing j → g'.phase i ≡ handing j)
  pub for_popper :
      (i : ℕ)
      → i < s.pop_index
      → g.popper i ≢ t
      → (is_free (g.phase i) ≡ true → is_free (g'.phase i) ≡ true)
        × (is_put (g.phase i) ≡ true → is_put (g'.phase i) ≡ true)
        × ((j : ℕ) → g.phase i ≡ handed j → g'.phase i ≡ handed j)
  pub for_spinner : (u : ℕ) → u ≢ t → waits (s.pc u) ≡ none → s'.futex_addr u ≡ s.futex_addr u
  pub for_waiter :
      (u i : ℕ) → u ≢ t → g.popper i ≡ u → waits (s.pc u) ≡ some i → Waits s g u i → Waits s' g' u i

module _ (t : ℕ) (s : System) (g : Tickets) (s' : System) (g' : Tickets) (x : Inv s g)
    (k : Tame t s g s' g') where
  Drawn-Tame : (u i : ℕ) → u ≢ t → Drawn s g u i → Drawn s' g' u i
  Drawn-Tame u i ne d = record {
    mine = k.popper i d.issued ∙ d.mine;
    issued = omega (arith, k.pop_le, d.issued);
    unreturned = k.received i d.issued (λ e. ne (sym d.mine ∙ e)) ∙ d.unreturned;
  }

  waiter-Tame :
      (u i : ℕ)
      → u ≢ t
      → waits (s.pc u) ≡ some i
      → Drawn s g u i × Waits s g u i
      → Drawn s' g' u i × Waits s' g' u i
  waiter-Tame u i ne w (d, h) = (Drawn-Tame u i ne d, k.for_waiter u i ne d.mine w h)

  others : (i u : ℕ) → u ≢ t → (d : Drawn s g u i) → g.popper i ≢ t
  others i u ne d e = ne (sym d.mine ∙ e)

  -- A put ticket was issued, so its value stays.
  put_issued : (i : ℕ) → is_put (g.phase i) ≡ true → i < s.put_index
  put_issued i e = ground (arith, x.unput i)

  Knows-Tame : (u : ℕ) (p : Pc) → u ≢ t → s.pc u ≡ p → Knows s g u p → Knows s' g' u p
  Knows-Tame u outside ne e h = tt
  Knows-Tame u (waking j) ne e h = tt
  Knows-Tame u (putting v i) ne e (mine, lt, sent, free) =
      let (f, hands) = k.for_putter i lt (λ z. ne (sym mine ∙ z)) in
      ((k.putter i lt).0 ∙ mine, omega (arith, k.put_le), (k.putter i lt).1 ∙ sent, f free)
  Knows-Tame u (notifying cv i) ne e (mine, lt, (j, c, h)) =
      let (f, hands) = k.for_putter i lt (λ z. ne (sym mine ∙ z)) in
      ((k.putter i lt).0 ∙ mine, omega (arith, k.put_le), (j, c, hands j h))
  Knows-Tame u (spinning i n) ne e (d, h, one_) = (
    Drawn-Tame u i ne d,
    (k.for_popper i d.issued (others i u ne d)).0 h,
    k.for_spinner u ne (ap waits e) ∙ one_,
  )
  Knows-Tame u (parking i) ne e (d, h, one_) = (
    Drawn-Tame u i ne d,
    (k.for_popper i d.issued (others i u ne d)).0 h,
    k.for_spinner u ne (ap waits e) ∙ one_,
  )
  Knows-Tame u (waiting i) ne e h = waiter-Tame u i ne (ap waits e) h
  Knows-Tame u (asleep i) ne e h = waiter-Tame u i ne (ap waits e) h
  Knows-Tame u (testing i) ne e h = waiter-Tame u i ne (ap waits e) h
  Knows-Tame u (rereading i) ne e (d, h) =
      (Drawn-Tame u i ne d, (k.for_popper i d.issued (others i u ne d)).2 u h)
  Knows-Tame u (over i cv) ne e (d, c, h) = (
    Drawn-Tame u i ne d,
    c ∙ ap item (sym (k.putter i (put_issued i h)).1),
    (k.for_popper i d.issued (others i u ne d)).1 h,
  )

  -- All threads, from the mover's own new place.
  pub threads-Tame :
      (p : Pc) → s'.pc ≡ update s.pc t p → Knows s' g' t p → (u : ℕ) → Knows s' g' u (s'.pc u)
  threads-Tame p e h u =
      subst (λ (f : ℕ → Pc). Knows s' g' u (f u)) (sym e)
        (elim (ℕ_discrete t u) [
          | yes q ↦
              subst (Knows s' g' u) (sym (update-eq s.pc t u p q))
                (subst (λ z. Knows s' g' z p) q h)
          | no ne ↦
              subst (Knows s' g' u) (sym (update-ne s.pc t u p ne))
                (Knows-Tame u (s.pc u) (λ z. ne (sym z)) refl (x.threads u))
        ])
