-- ===== src/Mpmc/Delivery.antt =====
-- Every step keeps the invariant, and what it says of what the calls of `mpmc_dequeue` return.
use linux_summer.Prelude.{
  ℕ, suc, ◌<◌, ◌≡◌, ◌≢◌, refl, sym, ap, subst, ◌∙◌, ◌⊎◌, inl, inr, some, [], ◌∷◌, update, update-ne,
  dec_lt, arith,
}
use linux_summer.Mpmc.{
  Cell, null, item, futex, Pc, outside, putting, notifying, waking, spinning, parking, waiting,
  asleep, testing, rereading, over, System, Step, start, Reach, enqueue, put, put_found, notify,
  wake, wake_none, dequeue, seen, spin, spun_out, park, park_found, sleep, no_sleep, interrupted,
  wait_again, notified, reread, return, here, next,
}
use linux_summer.Mpmc.Cells.{
  fresh, full, handing, content, is_put, Tickets, waits, Drawn, Knows, Inv,
}
use linux_summer.Mpmc.Quiet.{quiet, handed_over}
use linux_summer.Mpmc.Writes.{enqueue-Inv, dequeue-Inv, return-Inv}
use linux_summer.Mpmc.Moves.{full_of, put-Inv, put_found-Inv, is_issued}
use linux_summer.Mpmc.Parking.{park-Inv, park_found-Inv, notify-Inv}

abbrev pub Holds : System → Type 0
Holds s = (g : Tickets) × Inv s g

module _ (s : System) (g : Tickets) (x : Inv s g) where
  pub known : (t : ℕ) (p : Pc) → s.pc t ≡ p → Knows s g t p
  known t p e = subst (Knows s g t) e (x.threads t)

  drawn : (t i : ℕ) (pcs : ℕ → Pc) → Drawn s g t i → Drawn (record s { pc = pcs }) g t i
  drawn t i pcs d = record { mine = d.mine; issued = d.issued; unreturned = d.unreturned }

  -- The thread stays at its ticket, or at none.
  stays :
      (t : ℕ) (p q : Pc)
      → s.pc t ≡ p
      → waits q ≡ waits p
      → Knows s g t q
      → Inv (record s { pc = update s.pc t q }) g
  stays t p q e w h = quiet s g t q x h (inl (w ∙ sym (ap waits e)))

  wake-Inv :
      (t j i : ℕ)
      → s.pc t ≡ waking j
      → s.pc j ≡ asleep i
      → Inv (record s { pc = update (update s.pc t outside) j (testing i) }) g
  wake-Inv t j i e a =
      let s1 = record s { pc = update s.pc t outside } in
      let x1 : Inv s1 g = stays t (waking j) outside e refl tt in
      let ne : t ≢ j = λ q. cc (e, a, ap s.pc q) in
      let a1 : s1.pc j ≡ asleep i = update-ne s.pc t j outside ne ∙ a in
      let h : Knows s1 g j (asleep i) = subst (Knows s1 g j) a1 (x1.threads j) in
      quiet s1 g j (testing i) x1 h (inl (sym (ap waits a1)))

  -- The loop of waits ends at a futex that is not 1.
  notified-Inv :
      (t i : ℕ)
      → s.pc t ≡ testing i
      → s.futex_addr t ≢ 1
      → Inv (record s { pc = update s.pc t (rereading i) }) g
  notified-Inv t i e ne =
      let (d, w) = known t (testing i) e in
      let (h, free) = handed_over s g t i x (ap waits e) w ne in
      quiet s g t (rereading i) x (d, h) (inr free)

  seen-Inv :
      (t i n : ℕ)
      → s.pc t ≡ spinning i n
      → s.cell i ≢ null
      → Inv (record s { pc = update s.pc t (over i (s.cell i)) }) g
  seen-Inv t i n e c =
      let (d, free, one) = known t (spinning i n) e in
      let f : g.phase i ≡ full = full_of (s.sent i) (g.phase i) free (λ z. c (x.cells i ∙ z)) in
      stays t (spinning i n) (over i (s.cell i)) e refl
        (d, x.cells i ∙ ap (content (s.sent i)) f, ap is_put f)

  reread-Inv :
      (t i : ℕ) → s.pc t ≡ rereading i → Inv (record s { pc = update s.pc t (over i (s.cell i)) }) g
  reread-Inv t i e =
      let (d, f) = known t (rereading i) e in
      stays t (rereading i) (over i (s.cell i)) e refl
        (d, x.cells i ∙ ap (content (s.sent i)) f, ap is_put f)

Step-Inv : (s s' : System) (g : Tickets) → Inv s g → Step s s' → Holds s'
Step-Inv s _ g x (enqueue t v e) = (_, enqueue-Inv s g t v x e)
Step-Inv s _ g x (put t v i e c) = (_, put-Inv s g t i x v e (known s g x t (putting v i) e) c)
Step-Inv s _ g x (put_found t v i e c) =
    let (j, y) = put_found-Inv s g t i x v e (known s g x t (putting v i) e) c in (_, y)
Step-Inv s _ g x (notify t j i e) =
    let (mine, lt, (k, q, f)) = known s g x t (notifying (futex j) i) e in
    let same : k ≡ j = ground (arith, q) in
    (_, notify-Inv s g t i x j e (f ∙ ap handing same) mine lt)
Step-Inv s _ g x (wake t j i e a) = (g, wake-Inv s g x t j i e a)
Step-Inv s _ g x (wake_none t j e n) = (g, stays s g x t (waking j) outside e refl tt)
Step-Inv s _ g x (dequeue t e) = (_, dequeue-Inv s g t x e)
Step-Inv s _ g x (seen t i n e c) = (g, seen-Inv s g x t i n e c)
Step-Inv s _ g x (spin t i n e c) = (
  g,
  stays s g x t (spinning i (suc n)) (spinning i n) e refl (known s g x t (spinning i (suc n)) e),
)
Step-Inv s _ g x (spun_out t i e c) =
    (g, stays s g x t (spinning i 0) (parking i) e refl (known s g x t (spinning i 0) e))
Step-Inv s _ g x (park t i e c) = (_, park-Inv s g t i x e (known s g x t (parking i) e) c)
Step-Inv s _ g x (park_found t i e c) =
    (_, park_found-Inv s g t i x e (known s g x t (parking i) e) c)
Step-Inv s _ g x (sleep t i e o) =
    (g, stays s g x t (waiting i) (asleep i) e refl (known s g x t (waiting i) e))
Step-Inv s _ g x (no_sleep t i e o) =
    (g, stays s g x t (waiting i) (testing i) e refl (known s g x t (waiting i) e))
Step-Inv s _ g x (interrupted t i e) =
    (g, stays s g x t (asleep i) (testing i) e refl (known s g x t (asleep i) e))
Step-Inv s _ g x (wait_again t i e o) =
    (g, stays s g x t (testing i) (waiting i) e refl (known s g x t (testing i) e))
Step-Inv s _ g x (notified t i e o) = (g, notified-Inv s g x t i e o)
Step-Inv s _ g x (reread t i e) = (g, reread-Inv s g x t i e)
Step-Inv s _ g x (return t i cv e) = (g, return-Inv s g t i cv x e (known s g x t (over i cv) e))

start-Inv : Holds start
start-Inv = (
  record { phase = λ i. fresh; putter = λ i. 0; popper = λ i. 0 },
  record {
    cells = λ i. refl;
    unput = λ i le. refl;
    unpopped = λ i le. (refl, refl);
    results = λ i. inl refl;
    waiters = λ i j o. elim o [ inl z ↦ cc | inr z ↦ cc ];
    threads = λ t. tt;
  },
)

pub Reach-Inv : (s : System) → Reach s → Holds s
Reach-Inv _ here = start-Inv
Reach-Inv s (next {s = r} p q) = let (g, x) = Reach-Inv r p in Step-Inv r s g x q

-- In every reachable state, a ticket's call of `mpmc_dequeue` has returned nothing, or it has returned
-- once, with the value that the call of `mpmc_enqueue` with the same ticket was given, and the ticket is
-- one that both indices have passed.
pub delivered_once :
    (s : System)
    → Reach s
    → (i : ℕ)
    → (s.received i ≡ [])
      ⊎ ((s.received i ≡ item (s.sent i) ∷ []) × (i < s.put_index) × (i < s.pop_index))
delivered_once s r i =
    let (g, x) = Reach-Inv s r in
    elim (x.results i) [
      | inl z ↦ inl z
      | inr (z, h) ↦ inr (
        z,
        is_issued s g 0 i x h,
        elim (dec_lt i s.pop_index) [
          | yes lt ↦ lt
          | no ge ↦ cc (z, (x.unpopped i (omega arith)).1)
        ],
      )
    ]

-- In every reachable state, a thread that is before the write of `mpmc_enqueue` through what it found in
-- the cell has the address of the futex of a thread that waits for the same ticket in `mpmc_dequeue`.
pub notified_waits :
    (s : System)
    → Reach s
    → (t : ℕ) (cv : Cell) (i : ℕ) → s.pc t ≡ notifying cv i
    → (j : ℕ) × (cv ≡ futex j) × (waits (s.pc j) ≡ some i)
notified_waits s r t cv i e =
    let (g, x) = Reach-Inv s r in
    let (mine, lt, (j, c, f)) = known s g x t (notifying cv i) e in (j, c, x.waiters i j (inr f))
