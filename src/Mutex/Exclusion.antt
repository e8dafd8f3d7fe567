-- ===== src/Mutex/Exclusion.antt =====
-- Mutual exclusion of hw2/mutex.h, also through `cond_wait`.
use linux_summer.Prelude.{ℕ, ◌≡◌, refl, sym, ap, ◌∙◌, Bool, true, false, update, arith}
use linux_summer.Mutex.{
  is_locked, Return, enter, mark, Pc, critical, cond_loaded, cond_asleep, marking, signalling,
  broadcasting, Words, back, granted, CondMove, Move, condition, lock, spin_busy, spin_free,
  spin_lose, spin_win, spun_out, swap_busy, swap_free, wait_sleep, wait_retry, wait_interrupted,
  try_busy, try_free, try_lose, try_win, unlock_quiet, unlock_wake, cond_wait, cond_unlock_quiet,
  cond_unlock_wake, cond_changed, cond_same, cond_spun_out, cond_sleep, cond_missed,
  cond_interrupted, requeued_interrupted, cond_mark, signal, broadcast, Woken, from_lock, from_cond,
  Wakes, from_unlock, from_wait, requeue, System, Step, move, wake, wake_none, signal_one,
  signal_none, broadcast_some, broadcast_none, Reach, here, next,
}

-- Threads between getting the mutex and giving it up.
abbrev pub holds : Pc → Bool
holds critical = true
holds (cond_loaded s) = true
holds marking = true
holds (signalling held) = held
holds (broadcasting held) = held
holds _ = false

-- What a step does to the lock: nothing, or its thread gets a free lock, or gives it up.
pub data Effect (m : Words) (p : Pc) (m' : Words) (p' : Pc) : Type 0 where
  stays : holds p' ≡ holds p → is_locked m'.state ≡ is_locked m.state → Effect m p m' p'
  gains : is_locked m.state ≡ false → is_locked m'.state ≡ true → holds p' ≡ true → Effect m p m' p'
  drops : holds p ≡ true → holds p' ≡ false → is_locked m'.state ≡ false → Effect m p m' p'

holds-back : (held : Bool) → holds (back held) ≡ held
holds-back true = refl
holds-back false = refl

holds-granted : (r : Return) → holds (granted r) ≡ true
holds-granted enter = refl
holds-granted mark = refl

CondMove-Effect : {m m' : Words} {p p' : Pc} → CondMove m p m' p' → Effect m p m' p'
CondMove-Effect cond_wait = stays refl refl
CondMove-Effect (cond_unlock_quiet e) = drops refl refl refl
CondMove-Effect (cond_unlock_wake e) = drops refl refl refl
CondMove-Effect (cond_changed e) = stays refl refl
CondMove-Effect (cond_same e) = stays refl refl
CondMove-Effect cond_spun_out = stays refl refl
CondMove-Effect (cond_sleep e) = stays refl refl
CondMove-Effect (cond_missed e) = stays refl refl
CondMove-Effect cond_interrupted = stays refl refl
CondMove-Effect requeued_interrupted = stays refl refl
CondMove-Effect cond_mark = stays refl (ground arith)
CondMove-Effect (signal held e) = stays (sym (ap holds e ∙ holds-back held)) refl
CondMove-Effect (broadcast held e) = stays (sym (ap holds e ∙ holds-back held)) refl

pub Move-Effect : {m m' : Words} {p p' : Pc} → Move m p m' p' → Effect m p m' p'
Move-Effect lock = stays refl refl
Move-Effect (spin_busy e) = stays refl refl
Move-Effect (spin_free e) = stays refl refl
Move-Effect (spin_lose e) = stays refl (ground arith)
Move-Effect (spin_win {r = r} e) = gains e (ground arith) (holds-granted r)
Move-Effect spun_out = stays refl refl
Move-Effect (swap_busy e) = stays refl (ground arith)
Move-Effect (swap_free {r = r} e) = gains e refl (holds-granted r)
Move-Effect (wait_sleep e) = stays refl refl
Move-Effect (wait_retry e) = stays refl refl
Move-Effect wait_interrupted = stays refl refl
Move-Effect (try_busy e) = stays refl refl
Move-Effect (try_free e) = stays refl refl
Move-Effect (try_lose e) = stays refl (ground arith)
Move-Effect (try_win e) = gains e (ground arith) refl
Move-Effect (unlock_quiet e) = drops refl refl refl
Move-Effect (unlock_wake e) = drops refl refl refl
Move-Effect (condition c) = CondMove-Effect c

-- The word says whether the mutex is held, and one thread at most holds it.
pub record Exclusive (m : Words) (pc : ℕ → Pc) : Type 0 where
  pub locked : (i : ℕ) → holds (pc i) ≡ true → is_locked m.state ≡ true
  pub unique : (i j : ℕ) → holds (pc i) ≡ true → holds (pc j) ≡ true → i ≡ j
  pub held : is_locked m.state ≡ true → (i : ℕ) × (holds (pc i) ≡ true)

-- Moves that leave everybody's hold alone.
same_holds :
    {m m' : Words} (pc pc' : ℕ → Pc)
    → ((k : ℕ) → holds (pc' k) ≡ holds (pc k))
    → is_locked m'.state ≡ is_locked m.state
    → Exclusive m pc
    → Exclusive m' pc'
same_holds pc pc' same word x = record {
  locked = λ k h. word ∙ x.locked k (sym (same k) ∙ h);
  unique = λ k l h h'. x.unique k l (sym (same k) ∙ h) (sym (same l) ∙ h');
  held = λ h. let (k, hk) = x.held (sym word ∙ h) in (k, same k ∙ hk);
}

holds-update :
    (pc : ℕ → Pc) (i : ℕ) (p : Pc)
    → holds p ≡ holds (pc i)
    → (k : ℕ) → holds (update pc i p k) ≡ holds (pc k)
holds-update pc i p e k = ground arith

holds-update₂ :
    (pc : ℕ → Pc) (i j : ℕ) (p p' : Pc)
    → holds p ≡ holds (pc i)
    → holds p' ≡ holds (pc j)
    → (k : ℕ) → holds (update (update pc i p) j p' k) ≡ holds (pc k)
holds-update₂ pc i j p p' e e' k =
    holds-update (update pc i p) j p' (e' ∙ sym (holds-update pc i p e j)) k
    ∙ holds-update pc i p e k

Effect-Exclusive :
    {m m' : Words} {p' : Pc} (pc : ℕ → Pc) (i : ℕ)
    → Effect m (pc i) m' p'
    → Exclusive m pc
    → Exclusive m' (update pc i p')
Effect-Exclusive {p' = p'} pc i (stays h w) x =
    same_holds pc (update pc i p') (holds-update pc i p' h) w x
Effect-Exclusive {p' = p'} pc i (gains free locked' h) x = record {
  locked = λ k hk. locked';
  unique = λ k l hk hl. ground (arith, x.locked k, x.locked l);
  held = λ e. (i, ground arith);
}
Effect-Exclusive {p' = p'} pc i (drops h h' free) x = record {
  locked = λ k hk. ground (arith, x.unique i k);
  unique = λ k l hk hl. ground (arith, x.unique k l);
  held = λ e. cc;
}

Wakes-holds : {p p' : Pc} → Wakes p p' → holds p' ≡ holds p
Wakes-holds from_unlock = refl
Wakes-holds from_wait = refl

Woken-holds : {p p' : Pc} → Woken p p' → holds p' ≡ holds p
Woken-holds from_lock = refl
Woken-holds from_cond = refl

holds-requeue : (p : Pc) → holds (requeue p) ≡ holds p
holds-requeue cond_asleep = refl
holds-requeue p = refl

pub Step-Exclusive : {s t : System} → Step s t → Exclusive s.words s.pc → Exclusive t.words t.pc
Step-Exclusive {s} (move i mv) x = Effect-Exclusive s.pc i (Move-Effect mv) x
Step-Exclusive {s} (wake i j {p} {p'} w o) x =
    same_holds s.pc _ (holds-update₂ s.pc i j p p' (Wakes-holds w) (Woken-holds o)) refl x
Step-Exclusive {s} (wake_none i {p} w none_asleep) x =
    same_holds s.pc _ (holds-update s.pc i p (Wakes-holds w)) refl x
Step-Exclusive {s} (signal_one i j {held} at there) x =
    same_holds s.pc _
      (holds-update₂ s.pc i j _ _ (holds-back held ∙ sym (ap holds at)) (sym (ap holds there))) refl
      x
Step-Exclusive {s} (signal_none i {held} at none_asleep) x =
    same_holds s.pc _ (holds-update s.pc i _ (holds-back held ∙ sym (ap holds at))) refl x
Step-Exclusive {s} (broadcast_some i j {held} at there) x =
    same_holds s.pc _
      (λ k.
        holds-update₂ (λ l. requeue (s.pc l)) i j _ _
          (holds-back held ∙ sym (holds-requeue (s.pc i) ∙ ap holds at))
          (sym (holds-requeue (s.pc j) ∙ ap holds there)) k
        ∙ holds-requeue (s.pc k))
      refl x
Step-Exclusive {s} (broadcast_none i {held} at none_asleep) x =
    same_holds s.pc _ (holds-update s.pc i _ (holds-back held ∙ sym (ap holds at))) refl x

pub Reach-Exclusive : {s : System} → Reach s → Exclusive s.words s.pc
Reach-Exclusive here = record { locked = λ i h. cc; unique = λ i j h h'. cc; held = λ h. cc }
Reach-Exclusive (next r st) = Step-Exclusive st (Reach-Exclusive r)

-- Two threads never hold the mutex together, also across the unlock and the lock of `cond_wait`.
pub mutual_exclusion :
    {s : System} → Reach s → (i j : ℕ) → holds (s.pc i) ≡ true → holds (s.pc j) ≡ true → i ≡ j
mutual_exclusion r i j = (Reach-Exclusive r).unique i j

-- The word has MUTEX_LOCKED set exactly when some thread holds the mutex, so a thread that finds
-- it set never waits for nobody.
pub locked-holds :
    {s : System}
    → Reach s
    → ((i : ℕ) → holds (s.pc i) ≡ true → is_locked s.words.state ≡ true)
      × (is_locked s.words.state ≡ true → (i : ℕ) × (holds (s.pc i) ≡ true))
locked-holds r = ((Reach-Exclusive r).locked, (Reach-Exclusive r).held)
