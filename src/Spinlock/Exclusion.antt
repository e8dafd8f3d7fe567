-- ===== src/Spinlock/Exclusion.antt =====
-- The spinlock keeps its holders apart.
use linux_summer.Prelude.{ℕ, ◌≡◌, refl, sym, ap, ◌∙◌, Bool, true, false, update, arith}
use linux_summer.Spinlock.{
  Caller, spin_lock, spin_trylock, Pc, outside, loading, swapping, inside, failed, Move, call,
  load_busy, load_free, swap_busy, swap_free, spin_unlock, System, move, Reach, here, next,
}

abbrev pub holds : Pc → Bool
holds inside = true
holds outside = false
holds (loading c) = false
holds (swapping c) = false

record Exclusive (w : Bool) (pc : ℕ → Pc) : Type 0 where
  pub locked : (i : ℕ) → holds (pc i) ≡ true → w ≡ true
  pub unique : (i j : ℕ) → holds (pc i) ≡ true → holds (pc j) ≡ true → i ≡ j
  pub held : w ≡ true → (i : ℕ) × (holds (pc i) ≡ true)

holds-failed : (c : Caller) → holds (failed c) ≡ false
holds-failed spin_lock = refl
holds-failed spin_trylock = refl

-- A move that leaves the mover's hold and the word alone.
quiet :
    (pc : ℕ → Pc) (i : ℕ) (p : Pc) (w w' : Bool)
    → holds p ≡ holds (pc i)
    → w' ≡ w
    → Exclusive w pc
    → Exclusive w' (update pc i p)
quiet pc i p w w' e word x = record {
  locked = λ k h. ground (arith, x.locked k);
  unique = λ k l h h'. ground (arith, x.unique k l);
  held = λ h. let (k, hk) = x.held (sym word ∙ h) in (k, ground (arith, hk));
}

Move-Exclusive :
    {w w' : Bool} {p p' : Pc} (pc : ℕ → Pc) (i : ℕ)
    → pc i ≡ p
    → Move w p w' p'
    → Exclusive w pc
    → Exclusive w' (update pc i p')
Move-Exclusive {w} pc i e (call c) x = quiet pc i (loading c) w w (sym (ap holds e)) refl x
Move-Exclusive {w} pc i e (load_busy c b) x =
    quiet pc i (failed c) w w (holds-failed c ∙ sym (ap holds e)) refl x
Move-Exclusive {w} pc i e (load_free c b) x = quiet pc i (swapping c) w w (sym (ap holds e)) refl x
Move-Exclusive {w} pc i e (swap_busy c b) x =
    quiet pc i (failed c) w true (holds-failed c ∙ sym (ap holds e)) (sym b) x
Move-Exclusive {w} pc i e (swap_free c b) x = record {
  locked = λ k h. refl;
  unique = λ k l h h'. ground (arith, x.locked k, x.locked l);
  held = λ h. (i, ground arith);
}
Move-Exclusive {w} pc i e spin_unlock x = record {
  locked = λ k h. ground (arith, x.unique i k, ap holds e);
  unique = λ k l h h'. ground (arith, x.unique k l);
  held = λ h. cc;
}

Reach-Exclusive : {s : System} → Reach s → Exclusive s.word s.pc
Reach-Exclusive here = record { locked = λ i h. cc; unique = λ i j h h'. cc; held = λ h. cc }
Reach-Exclusive (next {s} r (move i mv)) = Move-Exclusive s.pc i refl mv (Reach-Exclusive r)

-- In every reachable state two threads that hold the spinlock are the same thread, and its word is
-- set exactly when some thread holds it.
pub spin_exclusion :
    {s : System}
    → Reach s
    → ((i j : ℕ) → holds (s.pc i) ≡ true → holds (s.pc j) ≡ true → i ≡ j)
      × ((i : ℕ) → holds (s.pc i) ≡ true → s.word ≡ true)
      × (s.word ≡ true → (i : ℕ) × (holds (s.pc i) ≡ true))
spin_exclusion r = let x = Reach-Exclusive r in (x.unique, x.locked, x.held)
