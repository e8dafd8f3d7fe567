-- ===== src/Mpmc/Cells.antt =====
-- The invariant of the queue: how far each ticket has come, and what each thread knows of its own.
use linux_summer.Prelude.{ℕ, ◌≤◌, ◌<◌, ◌≡◌, ◌⊎◌, Bool, true, false, Option, none, some, [], ◌∷◌}
use linux_summer.Mpmc.{
  Cell, null, item, futex, Pc, outside, putting, notifying, waking, spinning, parking, waiting,
  asleep, testing, rereading, over, System,
}

-- How far a ticket is: `parked` and `taken` are after the dequeuer's exchange, the first of them before the
-- enqueuer's; `handing` is between the enqueuer's exchange and its write, `handed` after it.
pub data Phase : Type 0 where
  fresh : Phase
  parked : (j : ℕ) → Phase
  full : Phase
  taken : (j : ℕ) → Phase
  handing : (j : ℕ) → Phase
  handed : (j : ℕ) → Phase

-- what the cell then has, if `v` is put there
abbrev pub content : ℕ → Phase → Cell
content v fresh = null
content v (parked j) = futex j
content v full = item v
content v (taken j) = futex j
content v (handing j) = item v
content v (handed j) = item v

abbrev pub is_put : Phase → Bool
is_put fresh = false
is_put (parked j) = false
is_put full = true
is_put (taken j) = true
is_put (handing j) = true
is_put (handed j) = true

-- before the dequeuer's exchange
abbrev pub is_free : Phase → Bool
is_free fresh = true
is_free full = true
is_free (parked j) = false
is_free (taken j) = false
is_free (handing j) = false
is_free (handed j) = false

-- The tickets: their phases, and the threads that drew them.
pub record Tickets : Type 0 where
  pub phase : ℕ → Phase
  pub putter : ℕ → ℕ
  pub popper : ℕ → ℕ

-- the ticket on which a thread waits for its futex
abbrev pub waits : Pc → Option ℕ
waits (waiting i) = some i
waits (asleep i) = some i
waits (testing i) = some i
waits outside = none
waits (putting v i) = none
waits (notifying cv i) = none
waits (waking j) = none
waits (spinning i n) = none
waits (parking i) = none
waits (rereading i) = none
waits (over i cv) = none

-- A dequeuer with the ticket, whose call has not returned.
pub record Drawn (s : System) (g : Tickets) (t i : ℕ) : Type 0 where
  pub mine : g.popper i ≡ t
  pub issued : i < s.pop_index
  pub unreturned : s.received i ≡ []

abbrev pub Waits : System → Tickets → ℕ → ℕ → Type 0
Waits s g t i =
    ((s.futex_addr t ≡ 1) × ((g.phase i ≡ parked t) ⊎ (g.phase i ≡ handing t)))
    ⊎ ((s.futex_addr t ≡ 0) × (g.phase i ≡ handed t))

-- what a thread knows at its place
abbrev pub Knows : System → Tickets → ℕ → Pc → Type 0
Knows s g t outside = Unit {0}
Knows s g t (waking j) = Unit {0}
Knows s g t (putting v i) =
    (g.putter i ≡ t) × (i < s.put_index) × (s.sent i ≡ v) × (is_put (g.phase i) ≡ false)
Knows s g t (notifying cv i) =
    (g.putter i ≡ t) × (i < s.put_index) × ((j : ℕ) × (cv ≡ futex j) × (g.phase i ≡ handing j))
Knows s g t (spinning i n) = Drawn s g t i × (is_free (g.phase i) ≡ true) × (s.futex_addr t ≡ 1)
Knows s g t (parking i) = Drawn s g t i × (is_free (g.phase i) ≡ true) × (s.futex_addr t ≡ 1)
Knows s g t (waiting i) = Drawn s g t i × Waits s g t i
Knows s g t (asleep i) = Drawn s g t i × Waits s g t i
Knows s g t (testing i) = Drawn s g t i × Waits s g t i
Knows s g t (rereading i) = Drawn s g t i × (g.phase i ≡ handed t)
Knows s g t (over i cv) = Drawn s g t i × (cv ≡ item (s.sent i)) × (is_put (g.phase i) ≡ true)

pub record Inv (s : System) (g : Tickets) : Type 0 where
  pub cells : (i : ℕ) → s.cell i ≡ content (s.sent i) (g.phase i)
  pub unput : (i : ℕ) → s.put_index ≤ i → is_put (g.phase i) ≡ false
  pub unpopped : (i : ℕ) → s.pop_index ≤ i → (is_free (g.phase i) ≡ true) × (s.received i ≡ [])
  pub results :
      (i : ℕ)
      → (s.received i ≡ []) ⊎ ((s.received i ≡ item (s.sent i) ∷ []) × (is_put (g.phase i) ≡ true))
  pub waiters :
      (i j : ℕ) → (g.phase i ≡ parked j) ⊎ (g.phase i ≡ handing j) → waits (s.pc j) ≡ some i
  pub threads : (t : ℕ) → Knows s g t (s.pc t)
