-- ===== src/Mpmc/Quiet.antt =====
-- The steps that write nothing but the place of their thread.
use linux_summer.Prelude.{
  ℕ, ◌≡◌, ◌≢◌, refl, sym, ap, ◌∙◌, ◌⊎◌, inl, inr, none, some, update, update-eq, update-ne,
  ℕ_discrete, arith,
}
use linux_summer.Mpmc.{
  Pc, outside, putting, notifying, waking, spinning, parking, waiting, asleep, testing, rereading,
  over, System,
}
use linux_summer.Mpmc.Cells.{parked, handing, handed, Tickets, waits, Drawn, Waits, Knows, Inv}
use linux_summer.Mpmc.Others.{threads-Tame}

Drawn-pc :
    (s : System) (g : Tickets) (t : ℕ) (pcs : ℕ → Pc) (i : ℕ)
    → Drawn s g t i
    → Drawn (record s { pc = pcs }) g t i
Drawn-pc s g t pcs i d = record { mine = d.mine; issued = d.issued; unreturned = d.unreturned }

Knows-pc :
    (s : System) (g : Tickets) (t : ℕ) (pcs : ℕ → Pc) (p : Pc)
    → Knows s g t p
    → Knows (record s { pc = pcs }) g t p
Knows-pc s g t pcs outside h = tt
Knows-pc s g t pcs (waking j) h = tt
Knows-pc s g t pcs (putting v i) h = h
Knows-pc s g t pcs (notifying cv i) h = h
Knows-pc s g t pcs (spinning i n) (d, h, o) = (Drawn-pc s g t pcs i d, h, o)
Knows-pc s g t pcs (parking i) (d, h, o) = (Drawn-pc s g t pcs i d, h, o)
Knows-pc s g t pcs (waiting i) (d, h) = (Drawn-pc s g t pcs i d, h)
Knows-pc s g t pcs (asleep i) (d, h) = (Drawn-pc s g t pcs i d, h)
Knows-pc s g t pcs (testing i) (d, h) = (Drawn-pc s g t pcs i d, h)
Knows-pc s g t pcs (rereading i) (d, h) = (Drawn-pc s g t pcs i d, h)
Knows-pc s g t pcs (over i cv) (d, c, h) = (Drawn-pc s g t pcs i d, c, h)

-- The thread waits for the same ticket as before, or no ticket waits for it.
pub quiet :
    (s : System) (g : Tickets) (t : ℕ) (p : Pc)
    → Inv s g
    → Knows s g t p
    → (waits p ≡ waits (s.pc t)) ⊎ ((i : ℕ) → (g.phase i ≢ parked t) × (g.phase i ≢ handing t))
    → Inv (record s { pc = update s.pc t p }) g
quiet s g t p x h o = record {
  cells = x.cells;
  unput = x.unput;
  unpopped = x.unpopped;
  results = x.results;
  waiters = λ i j e. elim (ℕ_discrete t j) [
    | yes q ↦ ap waits (update-eq s.pc t j p q) ∙ same i j e q o
    | no ne ↦ ap waits (update-ne s.pc t j p ne) ∙ x.waiters i j e
  ];
  threads =
      threads-Tame t s g (record s { pc = update s.pc t p }) g x
        (record {
          put_le = omega arith;
          pop_le = omega arith;
          putter = λ i lt. (refl, refl);
          popper = λ i lt. refl;
          received = λ i lt ne. refl;
          for_putter = λ i lt ne. (λ z. z, λ j z. z);
          for_popper = λ i lt ne. (λ z. z, λ z. z, λ j z. z);
          for_spinner = λ u ne w. refl;
          for_waiter = λ u i ne e w z. z;
        })
        p refl (Knows-pc s g t (update s.pc t p) p h);
}
  where
    same :
        (i j : ℕ)
        → (g.phase i ≡ parked j) ⊎ (g.phase i ≡ handing j)
        → t ≡ j
        → (waits p ≡ waits (s.pc t)) ⊎ ((i : ℕ) → (g.phase i ≢ parked t) × (g.phase i ≢ handing t))
        → waits p ≡ some i
    same i j e q (inl w) = w ∙ ap (λ z. waits (s.pc z)) q ∙ x.waiters i j e
    same i j (inl e) q (inr f) = absurd ((f i).0 (e ∙ ap parked (sym q)))
    same i j (inr e) q (inr f) = absurd ((f i).1 (e ∙ ap handing (sym q)))

-- A thread that waits for no ticket is awaited by none.
pub unawaited :
    (s : System) (g : Tickets) (t : ℕ)
    → Inv s g
    → waits (s.pc t) ≡ none
    → (i : ℕ) → (g.phase i ≢ parked t) × (g.phase i ≢ handing t)
unawaited s g t x e i = (λ z. cc (x.waiters i t (inl z), e), λ z. cc (x.waiters i t (inr z), e))

-- A thread whose futex is not 1 is awaited by no ticket.
pub handed_over :
    (s : System) (g : Tickets) (t i : ℕ)
    → Inv s g
    → waits (s.pc t) ≡ some i
    → Waits s g t i
    → s.futex_addr t ≢ 1
    → (g.phase i ≡ handed t) × ((k : ℕ) → (g.phase k ≢ parked t) × (g.phase k ≢ handing t))
handed_over s g t i x e (inl (one, o)) ne = absurd (ne one)
handed_over s g t i x e (inr (zero_, h)) ne = (h, λ k. (λ z. clash k (inl z), λ z. clash k (inr z)))
  where
    -- it would be the same ticket
    clash : (k : ℕ) → (g.phase k ≡ parked t) ⊎ (g.phase k ≡ handing t) → ⊥
    clash k o =
        let q : some i ≡ some k = sym e ∙ x.waiters k t o in
        absurd (same_ticket k o (ground (arith, q)))
      where
        same_ticket : (k : ℕ) → (g.phase k ≡ parked t) ⊎ (g.phase k ≡ handing t) → i ≡ k → ⊥
        same_ticket k (inl z) q = cc (h, ap g.phase q, z)
        same_ticket k (inr z) q = cc (h, ap g.phase q, z)
