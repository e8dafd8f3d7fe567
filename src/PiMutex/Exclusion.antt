-- ===== src/PiMutex/Exclusion.antt =====
-- The holders of the mutex, and what an unlock does for a thread that waits.
use linux_summer.Prelude.{
  ℕ, zero, suc, ◌+◌, ◌-◌, ◌≡◌, ◌≢◌, refl, sym, ap, ap₂, subst, ◌∙◌, ◌⊎◌, inl, inr, Bool, true,
  false, update, arith,
}
use linux_summer.Mutex.{mutex_spins}
use linux_summer.PiMutex.{
  Caller, user, loop, Pc, outside, swapping, asking, waiting, inside, releasing, failed, Word, free,
  own, Move, call_trylock, call_lock, swap_free, swap_busy, lock_free, lock_wait, unlock_swap,
  unlock_call, System, Step, move, hand_over, let_go, start, Reach, here, next,
}

abbrev pub holds : Pc → Bool
holds inside = true
holds releasing = true
holds outside = false
holds (swapping c) = false
holds asking = false
holds waiting = false

abbrev pub waits : Pc → Bool
waits waiting = true
waits inside = false
waits releasing = false
waits outside = false
waits (swapping c) = false
waits asking = false

pub record Owned (w : Word) (pc : ℕ → Pc) : Type 0 where
  pub locked : (i : ℕ) → holds (pc i) ≡ true → w.owner ≡ i + 1
  pub held : (i : ℕ) → w.owner ≡ i + 1 → holds (pc i) ≡ true
  pub flagged : (i : ℕ) → waits (pc i) ≡ true → (w.waiters ≡ true) × (w.owner ≢ 0)
  pub unflagged : w.owner ≡ 0 → w.waiters ≡ false

holds-failed : (c : Caller) → (holds (failed c) ≡ false) × (waits (failed c) ≡ false)
holds-failed user = (refl, refl)
holds-failed (loop zero) = (refl, refl)
holds-failed (loop (suc k)) = (refl, refl)

-- A move that leaves the mover's hold and the word alone, and after which it does not wait.
quiet :
    (pc : ℕ → Pc) (i : ℕ) (p : Pc) (w : Word)
    → holds p ≡ holds (pc i)
    → waits p ≡ false
    → Owned w pc
    → Owned w (update pc i p)
quiet pc i p w e e' x = record {
  locked = λ k h. ground (arith, x.locked k);
  held = λ k h. ground (arith, x.held k h);
  flagged = λ k h. (ground (arith, x.flagged k), ground (arith, x.flagged k));
  unflagged = x.unflagged;
}

-- A thread takes the free word.
taken :
    (pc : ℕ → Pc) (i : ℕ) (w : Word) → w ≡ free → Owned w pc → Owned (own i) (update pc i inside)
taken pc i w e x =
    let none_there = ap (λ (z : Word). z.owner) e in
    record {
      locked = λ k h. ground (arith, x.locked k);
      held = λ k h. ground (arith);
      flagged = λ k h. absurd (ground (arith, x.flagged k));
      unflagged = λ z. refl;
    }

not_free : (w : Word) → w ≢ free → (w.owner ≡ 0 → w.waiters ≡ false) → w.owner ≢ 0
not_free w ne u z = ne (ap₂ (λ x y. record { owner = x; waiters = y }) z (u z))

Move-Owned :
    (i : ℕ) {w w' : Word} {p p' : Pc} (pc : ℕ → Pc)
    → pc i ≡ p
    → Move i w p w' p'
    → Owned w pc
    → Owned w' (update pc i p')
Move-Owned i {w} pc e call_trylock x = quiet pc i (swapping user) w (sym (ap holds e)) refl x
Move-Owned i {w} pc e call_lock x =
    quiet pc i (swapping (loop (mutex_spins - 1))) w (sym (ap holds e)) refl x
Move-Owned i {w} pc e (swap_free c z) x = taken pc i w z x
Move-Owned i {w} pc e (swap_busy c z) x =
    quiet pc i (failed c) w ((holds-failed c).0 ∙ sym (ap holds e)) (holds-failed c).1 x
Move-Owned i {w} pc e (lock_free z) x = taken pc i w z x
Move-Owned i {w} pc e (lock_wait z) x =
    let nz = not_free w z x.unflagged in
    record {
      locked = λ k h. ground (arith, x.locked k);
      held = λ k h. ground (arith, x.held k h, ap holds e);
      flagged = λ k h. (refl, nz);
      unflagged = λ h. absurd (nz h);
    }
Move-Owned i {w} pc e (unlock_swap z) x =
    let mine = ap (λ (u : Word). u.owner) z in
    record {
      locked = λ k h. ground (arith, x.locked k, mine);
      held = λ k h. absurd (omega (arith, h));
      flagged = λ k h. absurd (ground (arith, x.flagged k, ap (λ (u : Word). u.waiters) z));
      unflagged = λ h. refl;
    }
Move-Owned i {w} pc e (unlock_call z) x = quiet pc i releasing w (sym (ap holds e)) refl x

waits_only : (p : Pc) → waits p ≡ true → p ≡ waiting
waits_only waiting e = refl
waits_only outside e = absurd (ground (arith, e))
waits_only (swapping c) e = absurd (ground (arith, e))
waits_only asking e = absurd (ground (arith, e))
waits_only inside e = absurd (ground (arith, e))
waits_only releasing e = absurd (ground (arith, e))

Step-Owned : {s t : System} → Step s t → Owned s.word s.pc → Owned t.word t.pc
Step-Owned {s} (move i m) x = Move-Owned i s.pc refl m x
Step-Owned {s} (hand_over i j b ei ej o) x =
    let mine = x.locked i (ap holds ei) in
    let ne : i ≢ j = λ z. ground (arith, ap holds (sym ei ∙ ap s.pc z ∙ ej)) in
    record {
      locked = λ k h. ground (arith, x.locked k, mine, ne);
      held = λ k h. ground (arith, h);
      flagged = λ k h. elim o [
        | inl z ↦ (z, omega arith)
        | inr f ↦ absurd (
            ground (
              arith,
              h,
              ne,
              ap waits ei,
              λ (z : k ≢ j) (q : waits (s.pc k) ≡ true). f k z (waits_only (s.pc k) q),
            ))
      ];
      unflagged = λ h. absurd (omega (arith, h));
    }
Step-Owned {s} (let_go i ei f) x =
    let mine = x.locked i (ap holds ei) in
    record {
      locked = λ k h. ground (arith, x.locked k, mine);
      held = λ k h. absurd (omega (arith, h));
      flagged = λ k h.
          absurd (ground (arith, h, λ (q : waits (s.pc k) ≡ true). f k (waits_only (s.pc k) q)));
      unflagged = λ h. refl;
    }

Reach-Owned : {s : System} → Reach start s → Owned s.word s.pc
Reach-Owned here = record {
  locked = λ i h. absurd (ground (arith, h));
  held = λ i h. absurd (omega (arith, h));
  flagged = λ i h. absurd (ground (arith, h));
  unflagged = λ h. refl;
}
Reach-Owned (next r st) = Step-Owned st (Reach-Owned r)

-- In every reachable state two threads that hold the mutex with priority inheritance are the same
-- thread, and the word has the id of a thread exactly when it holds the mutex.
pub pi_exclusion :
    {s : System}
    → Reach start s
    → ((i j : ℕ) → holds (s.pc i) ≡ true → holds (s.pc j) ≡ true → i ≡ j)
      × ((i : ℕ) → holds (s.pc i) ≡ true → s.word.owner ≡ i + 1)
      × ((i : ℕ) → s.word.owner ≡ i + 1 → holds (s.pc i) ≡ true)
pi_exclusion r =
    let x = Reach-Owned r in
    (λ i j h h'. omega (arith, x.locked i h, x.locked j h'), x.locked, x.held)

holds_cases : (p : Pc) → holds p ≡ true → (p ≡ inside) ⊎ (p ≡ releasing)
holds_cases inside e = inl refl
holds_cases releasing e = inr refl
holds_cases outside e = absurd (ground (arith, e))
holds_cases (swapping c) e = absurd (ground (arith, e))
holds_cases asking e = absurd (ground (arith, e))
holds_cases waiting e = absurd (ground (arith, e))

-- the thread whose step it is; a hand-over by the kernel is part of the `futex_unlock_pi` of the holder
abbrev pub stepper : {s t : System} → Step s t → ℕ
stepper (move i m) = i
stepper (hand_over i j b ei ej o) = i
stepper (let_go i ei f) = i

abbrev pub AllBy : ℕ → {s t : System} → Reach s t → Type 0
AllBy h here = Unit {0}
AllBy h (next r st) = AllBy h r × (stepper st ≡ h)

-- From every reachable state in which a thread waits in futex_lock_pi, there is a thread that holds the
-- mutex, and steps of that thread alone, with a kernel that hands the mutex over to the waiting thread at
-- the unlock, lead to a state in which the waiting thread has it.
pub waiting-served :
    {s : System} (j : ℕ)
    → Reach start s
    → s.pc j ≡ waiting
    → (h : ℕ) × (holds (s.pc h) ≡ true)
      × ((t : System) × (r : Reach s t) × AllBy h r × (t.pc j ≡ inside))
waiting-served {s} j r ej =
    let x = Reach-Owned r in
    let (flag, nz) = x.flagged j (ap waits ej) in
    let h = s.word.owner - 1 in
    let holder = x.held h (omega (arith, nz)) in
    let ne : h ≢ j = λ z. ground (arith, holder, ap holds (ap s.pc z ∙ ej)) in
    elim (holds_cases (s.pc h) holder) [
      | inl e ↦
          let call : Move h s.word (s.pc h) s.word releasing =
            subst (λ z. Move h s.word z s.word releasing) (sym e)
              (unlock_call (λ z. ground (arith, flag, ap (λ (w : Word). w.waiters) z))) in
          let s' : System = record { word = s.word; pc = update s.pc h releasing } in
          (
            h,
            holder,
            (
              _,
              next (next here (move h call))
                  (hand_over h j true (ground arith) (ground (arith, ej, ne)) (inl refl)),
              ((tt, refl), refl),
              ground arith,
            ),
          )
      | inr e ↦
          (h, holder, (_, next here (hand_over h j true e ej (inl refl)), (tt, refl), ground arith))
    ]
