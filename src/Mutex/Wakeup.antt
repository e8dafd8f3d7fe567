-- ===== src/Mutex/Wakeup.antt =====
-- No wake-up is lost on the mutex of hw2/mutex.h and hw2/cond.h: whoever sleeps on it is owed one.
use linux_summer.Prelude.{
  ℕ, ◌≡◌, ◌⊎◌, inl, inr, refl, sym, ap, ◌∙◌, Bool, true, false, update, update-eq, update-ne,
  ℕ_discrete, arith,
}
use linux_summer.Mutex.{
  is_locked, is_sleeping, Return, enter, mark, Pc, spinning, spin_or, slow, waking, cond_waking,
  marking, Words, back, granted, CondMove, Move, condition, lock, spin_busy, spin_free, spin_lose,
  spin_win, spun_out, swap_busy, swap_free, wait_sleep, wait_retry, wait_interrupted, try_busy,
  try_free, try_lose, try_win, unlock_quiet, unlock_wake, cond_wait, cond_unlock_quiet,
  cond_unlock_wake, cond_changed, cond_same, cond_spun_out, cond_sleep, cond_missed,
  cond_interrupted, requeued_interrupted, cond_mark, signal, broadcast, Woken, from_lock, from_cond,
  Wakes, from_unlock, from_wait, on_mutex, requeue, System, Step, move, wake, wake_none, signal_one,
  signal_none, broadcast_some, broadcast_none, Reach, here, next,
}
use linux_summer.Mutex.Exclusion.{holds, Exclusive, Reach-Exclusive}

-- Threads that, before they next sleep or leave, will call `futex_wake` or set MUTEX_SLEEPING.
abbrev pub helps : Pc → Bool
helps (slow r) = true
helps waking = true
helps (cond_waking s) = true
helps (spinning k mark) = true
helps (spin_or k mark) = true
helps marking = true
helps _ = false

-- the promise to the sleepers: the next unlock will wake one, or a thread is on its way to help
abbrev pub Promise : Words → (ℕ → Pc) → Type 0
Promise m pc = (is_sleeping m.state ≡ true) ⊎ ((i : ℕ) × (helps (pc i) ≡ true))

record Care (m : Words) (p : Pc) (m' : Words) (p' : Pc) : Type 0 where
  sleeps : on_mutex p' ≡ true → is_sleeping m'.state ≡ true
  passes_on :
      (is_sleeping m.state ≡ true) ⊎ (helps p ≡ true)
      → (is_sleeping m'.state ≡ true) ⊎ (helps p' ≡ true)

back_quiet : (held : Bool) → (on_mutex (back held) ≡ false) × (helps (back held) ≡ false)
back_quiet true = (refl, refl)
back_quiet false = (refl, refl)

granted_quiet : (r : Return) → on_mutex (granted r) ≡ false
granted_quiet enter = refl
granted_quiet mark = refl

CondMove-Care : {m m' : Words} {p p' : Pc} → CondMove m p m' p' → Care m p m' p'
CondMove-Care cond_wait = ground arith
CondMove-Care (cond_unlock_quiet e) = ground arith
CondMove-Care (cond_unlock_wake e) = ground arith
CondMove-Care (cond_changed e) = ground arith
CondMove-Care (cond_same e) = ground arith
CondMove-Care cond_spun_out = ground arith
CondMove-Care (cond_sleep e) = ground arith
CondMove-Care (cond_missed e) = ground arith
CondMove-Care cond_interrupted = ground arith
CondMove-Care requeued_interrupted = ground arith
CondMove-Care cond_mark = ground arith
CondMove-Care (signal held e) = ground arith
CondMove-Care (broadcast held e) = ground arith

Move-Care : {m m' : Words} {p p' : Pc} → Move m p m' p' → Care m p m' p'
Move-Care lock = ground arith
Move-Care (spin_busy {r = r} e) = ground arith
Move-Care (spin_free {r = r} e) = ground arith
Move-Care (spin_lose {r = r} e) = ground arith
Move-Care (spin_win {r = r} e) = ground arith
Move-Care (spun_out {r = r}) = ground arith
Move-Care (swap_busy {r = r} e) = ground arith
Move-Care (swap_free {r = r} e) = ground arith
Move-Care (wait_sleep {r = r} e) = ground arith
Move-Care (wait_retry {r = r} e) = ground arith
Move-Care (wait_interrupted {r = r}) = ground arith
Move-Care (try_busy e) = ground arith
Move-Care (try_free e) = ground arith
Move-Care (try_lose e) = ground arith
Move-Care (try_win e) = ground arith
Move-Care (unlock_quiet e) = ground arith
Move-Care (unlock_wake e) = ground arith
Move-Care (condition c) = CondMove-Care c

-- MUTEX_SLEEPING is only ever set together with MUTEX_LOCKED.
CondMove-locked :
    {m m' : Words} {p p' : Pc}
    → CondMove m p m' p'
    → (is_sleeping m.state ≡ true → is_locked m.state ≡ true)
    → (holds p ≡ true → is_locked m.state ≡ true)
    → is_sleeping m'.state ≡ true
    → is_locked m'.state ≡ true
CondMove-locked cond_wait w l h = w h
CondMove-locked (cond_unlock_quiet e) w l h = ground arith
CondMove-locked (cond_unlock_wake e) w l h = ground arith
CondMove-locked (cond_changed e) w l h = w h
CondMove-locked (cond_same e) w l h = w h
CondMove-locked cond_spun_out w l h = w h
CondMove-locked (cond_sleep e) w l h = w h
CondMove-locked (cond_missed e) w l h = w h
CondMove-locked cond_interrupted w l h = w h
CondMove-locked requeued_interrupted w l h = w h
CondMove-locked cond_mark w l h = ground arith
CondMove-locked (signal held e) w l h = w h
CondMove-locked (broadcast held e) w l h = w h

Move-locked :
    {m m' : Words} {p p' : Pc}
    → Move m p m' p'
    → (is_sleeping m.state ≡ true → is_locked m.state ≡ true)
    → (holds p ≡ true → is_locked m.state ≡ true)
    → is_sleeping m'.state ≡ true
    → is_locked m'.state ≡ true
Move-locked lock w l h = w h
Move-locked (spin_busy e) w l h = w h
Move-locked (spin_free e) w l h = w h
Move-locked (spin_lose e) w l h = ground arith
Move-locked (spin_win e) w l h = ground arith
Move-locked spun_out w l h = w h
Move-locked (swap_busy e) w l h = ground arith
Move-locked (swap_free e) w l h = ground arith
Move-locked (wait_sleep e) w l h = w h
Move-locked (wait_retry e) w l h = w h
Move-locked wait_interrupted w l h = w h
Move-locked (try_busy e) w l h = w h
Move-locked (try_free e) w l h = w h
Move-locked (try_lose e) w l h = ground arith
Move-locked (try_win e) w l h = ground arith
Move-locked (unlock_quiet e) w l h = ground arith
Move-locked (unlock_wake e) w l h = ground arith
Move-locked (condition c) w l h = CondMove-locked c w l h

record Cared (m : Words) (pc : ℕ → Pc) : Type 0 where
  promised : (j : ℕ) → on_mutex (pc j) ≡ true → Promise m pc
  word : is_sleeping m.state ≡ true → is_locked m.state ≡ true

from_mover :
    (m : Words) (pc : ℕ → Pc) (i : ℕ) (p : Pc)
    → (is_sleeping m.state ≡ true) ⊎ (helps p ≡ true)
    → Promise m (update pc i p)
from_mover m pc i p (inl h) = inl h
from_mover m pc i p (inr h) = inr (i, ap helps (update-eq pc i i p refl) ∙ h)

-- The rest of the threads keep a promise that the mover keeps.
Promise-update :
    {m m' : Words} (pc : ℕ → Pc) (i : ℕ) (p' : Pc)
    → Care m (pc i) m' p'
    → Promise m pc
    → Promise m' (update pc i p')
Promise-update {m' = m'} pc i p' c (inl h) = from_mover m' pc i p' (c.passes_on (inl h))
Promise-update {m' = m'} pc i p' c (inr (k, h)) = elim (ℕ_discrete i k) [
  | yes e ↦ from_mover m' pc i p' (c.passes_on (inr (ap (λ (n : ℕ). helps (pc n)) e ∙ h)))
  | no ne ↦ inr (k, ap helps (update-ne pc i k p' ne) ∙ h)
]

Move-Cared :
    {m m' : Words} {p' : Pc} (pc : ℕ → Pc) (i : ℕ)
    → Move m (pc i) m' p'
    → Exclusive m pc
    → Cared m pc
    → Cared m' (update pc i p')
Move-Cared {m} {m'} {p' = p'} pc i mv x c = record {
  promised = λ j h. elim (ℕ_discrete i j) [
    | yes e ↦ inl ((Move-Care mv).sleeps (sym (ap on_mutex (update-eq pc i j p' e)) ∙ h))
    | no ne ↦
        Promise-update {m = m} {m' = m'} pc i p' (Move-Care mv)
          (c.promised j (sym (ap on_mutex (update-ne pc i j p' ne)) ∙ h))
  ];
  word = Move-locked mv c.word (x.locked i);
}

-- Steps of two threads, the second of which comes out of the step as a helper.
helped :
    {m : Words} (pc : ℕ → Pc) (j : ℕ) (p : Pc)
    → helps p ≡ true
    → (is_sleeping m.state ≡ true → is_locked m.state ≡ true)
    → Cared m (update pc j p)
helped pc j p h w = record {
  promised = λ k hk. inr (j, ap helps (update-eq pc j j p refl) ∙ h);
  word = w;
}

-- A thread that neither sleeps nor helps goes to a place where it does not either.
unconcerned :
    {m : Words} (pc : ℕ → Pc) (i : ℕ) (p : Pc)
    → on_mutex p ≡ false
    → helps (pc i) ≡ false
    → Cared m pc
    → Cared m (update pc i p)
unconcerned {m} pc i p off idle c = record {
  promised = λ k hk. elim (ℕ_discrete i k) [
    | yes e ↦ cc (update-eq pc i k p e)
    | no ne ↦
        Promise-update {m = m} {m' = m} pc i p
          (record { sleeps = λ h. cc; passes_on = λ h. ground arith })
          (c.promised k (sym (ap on_mutex (update-ne pc i k p ne)) ∙ hk))
  ];
  word = c.word;
}

Woken-helps : {p p' : Pc} → Woken p p' → helps p' ≡ true
Woken-helps from_lock = refl
Woken-helps from_cond = refl

Wakes-off : {p p' : Pc} → Wakes p p' → on_mutex p' ≡ false
Wakes-off from_unlock = refl
Wakes-off from_wait = refl

Step-Cared :
    {s t : System} → Step s t → Exclusive s.words s.pc → Cared s.words s.pc → Cared t.words t.pc
Step-Cared {s} (move i mv) x c = Move-Cared s.pc i mv x c
Step-Cared {s} (wake i j {p} {p'} w o) x c = helped (update s.pc i p) j p' (Woken-helps o) c.word
Step-Cared {s} (wake_none i {p} w none_asleep) x c = record {
  promised = λ k hk. elim (ℕ_discrete i k) [
    | yes e ↦ cc (update-eq s.pc i k p e, Wakes-off w)
    | no ne ↦ cc (update-ne s.pc i k p ne, none_asleep k)
  ];
  word = c.word;
}
Step-Cared {s} (signal_one i j {held} at there) x c =
    helped (update s.pc i (back held)) j _ refl c.word
Step-Cared {s} (signal_none i {held} at none_asleep) x c =
    unconcerned s.pc i (back held) (back_quiet held).0 (ap helps at) c
Step-Cared {s} (broadcast_some i j {held} at there) x c =
    helped (update (λ k. requeue (s.pc k)) i (back held)) j _ refl c.word
Step-Cared {s} (broadcast_none i {held} at none_asleep) x c =
    unconcerned s.pc i (back held) (back_quiet held).0 (ap helps at) c

Reach-Cared : {s : System} → Reach s → Cared s.words s.pc
Reach-Cared here = record { promised = λ j h. cc; word = λ h. cc }
Reach-Cared (next r st) = Step-Cared st (Reach-Exclusive r) (Reach-Cared r)

-- While a thread sleeps on the mutex, either some thread holds the mutex with MUTEX_SLEEPING set,
-- so that its unlock calls `futex_wake`, or some thread is about to call `futex_wake` or to set
-- MUTEX_SLEEPING itself.
pub no_lost_wakeup :
    {s : System}
    → Reach s
    → (j : ℕ) → on_mutex (s.pc j) ≡ true
    → ((is_sleeping s.words.state ≡ true) × ((i : ℕ) × (holds (s.pc i) ≡ true)))
      ⊎ ((i : ℕ) × (helps (s.pc i) ≡ true))
no_lost_wakeup r j h = elim ((Reach-Cared r).promised j h) [
  | inl set ↦ inl (set, (Reach-Exclusive r).held ((Reach-Cared r).word set))
  | inr i ↦ inr i
]
