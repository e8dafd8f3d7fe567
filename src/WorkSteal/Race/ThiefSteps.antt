-- ===== src/WorkSteal/Race/ThiefSteps.antt =====
-- A step of a thief keeps the invariant.
use linux_summer.Prelude.{
  ℕ, suc, ◌+◌, ◌^◌, ◌≤◌, ◌<◌, ◌≡◌, refl, sym, ap, subst, ◌∙◌, List, ◌∷◌, count, arith, update,
  update-eq, update-ne, ℕ_discrete,
}
use linux_summer.Prelude.Mod.{add_size}
use linux_summer.WorkSteal.Deque.{Deque, current, slot}
use linux_summer.WorkSteal.Deque.Refine.{items-cons}
use linux_summer.WorkSteal.Race.{
  Owner, idle, pushing, growing, writing, publishing, taking, last, restoring, Thief, away, passed,
  got_array, got_item, Event, log_pushed, log_returned, ThiefStep, load_top, load_bottom, see_empty,
  load_array, load_item, steal_win, steal_lose,
}
use linux_summer.WorkSteal.Race.Memory.{Keeps, ThiefKnows-Keeps}
use linux_summer.WorkSteal.Race.Inv.{limit, OwnerKnows, ThiefKnows, Shape, Conserved, Inv}

-- The only write of a thief: `top` goes up by one, at its compare-and-swap.
bottom-le-limit : (q : Deque) (o : Owner) → OwnerKnows q o → q.bottom ≤ limit q o
bottom-le-limit q idle k = omega arith
bottom-le-limit q (pushing w b t) k = omega arith
bottom-le-limit q (growing w b t) k = omega arith
bottom-le-limit q (writing w b) k = omega arith
bottom-le-limit q (publishing w b) k = omega arith
bottom-le-limit q (taking b) k = omega arith
bottom-le-limit q (last b x) k = omega arith
bottom-le-limit q (restoring b x) k = omega arith

limit-top : (q : Deque) (o : Owner) (t : ℕ) → limit (record q { top = t }) o ≡ limit q o
limit-top q idle t = refl
limit-top q (pushing w b u) t = refl
limit-top q (growing w b u) t = refl
limit-top q (writing w b) t = refl
limit-top q (publishing w b) t = refl
limit-top q (taking b) t = refl
limit-top q (last b x) t = refl
limit-top q (restoring b x) t = refl

OwnerKnows-top :
    (q : Deque) (o : Owner)
    → q.top < limit q o
    → OwnerKnows q o
    → OwnerKnows (record q { top = q.top + 1 }) o
OwnerKnows-top q idle lt k = tt
OwnerKnows-top q (pushing w b u) lt k = omega arith
OwnerKnows-top q (growing w b u) lt k = omega arith
OwnerKnows-top q (writing w b) lt k = omega arith
OwnerKnows-top q (publishing w b) lt k = (k.0, omega arith, k.2)
OwnerKnows-top q (taking b) lt k = k
OwnerKnows-top q (last b x) lt k = (k.0, omega arith, k.2)
OwnerKnows-top q (restoring b x) lt k = absurd (omega arith)

module _ {n : ℕ} {q : Deque} {o : Owner} {thief : ℕ → Thief} {ws xs : List ℕ}
    (i : Inv n q o thief ws xs) where
  open i use {shape, owner, thieves, conserved}

  abbrev end : ℕ
  end = limit q o

  -- Thief `j` moves on, and leaves the deque alone.
  move_on : (j : ℕ) (p : Thief) → ThiefKnows q end p → Inv n q o (update thief j p) ws xs
  move_on j p h = record {
    shape = shape;
    owner = owner;
    thieves = λ k. elim (ℕ_discrete j k) [
      | yes e ↦ subst (ThiefKnows q end) (sym (update-eq thief j k p e)) h
      | no ne ↦ subst (ThiefKnows q end) (sym (update-ne thief j k p ne)) (thieves k)
    ];
    conserved = conserved;
  }

  later : Inv (suc n) q o thief ws xs
  later = record {
    shape = omega (arith, shape);
    owner = owner;
    thieves = thieves;
    conserved = conserved;
  }

  abbrev raised : Deque
  raised = record q { top = q.top + 1 }

  raised-Keeps : Keeps q end raised end
  raised-Keeps = record {
    top_up = omega arith;
    allocated_up = omega arith;
    first_stays = λ e lt. lt;
    kept = λ j p lt. refl;
    arrays_kept = λ a p lt. refl;
  }

  raised-Conserved : q.top < end → Conserved raised end ws (slot (current q) q.top ∷ xs)
  raised-Conserved lt v =
      omega (arith, conserved v, ap (count v) (items-cons q.top end (current q) lt))

  raise : q.top < end → Inv (suc n) raised o thief ws (slot (current q) q.top ∷ xs)
  raise lt = record {
    shape = subst (Shape (suc n) raised) (sym (limit-top q o (q.top + 1))) (omega (arith, shape));
    owner = OwnerKnows-top q o lt owner;
    thieves = λ k.
        subst (λ (e : ℕ). ThiefKnows raised e (thief k)) (sym (limit-top q o (q.top + 1)))
          (ThiefKnows-Keeps (thief k) raised-Keeps (thieves k));
    conserved =
        subst (λ (e : ℕ). Conserved raised e ws (slot (current q) q.top ∷ xs))
          (sym (limit-top q o (q.top + 1))) (raised-Conserved lt);
  }

-- A thief that wins the compare-and-swap gets the first item.
win :
    {n : ℕ} {q : Deque} {o : Owner} {thief : ℕ → Thief} {ws xs : List ℕ} (j t x : ℕ)
    → n < 2 ^ 63
    → q.top ≡ t
    → ThiefKnows q (limit q o) (got_item t x)
    → Inv n q o thief ws xs
    → Inv (suc n) (record q { top = add_size t 1 }) o (update thief j away) ws (x ∷ xs)
win {n} {q} {o} {thief} {ws} {xs} j t x small e k i =
    let (lt, held) = k.1 (sym e) in
    let at : q.top < limit q o = omega arith in
    let x_first : x ≡ slot (current q) q.top = held ∙ ap (slot (current q)) (sym e) in
    let one_up : q.top + 1 ≡ add_size t 1 = omega (arith, i.shape) in
    subst (λ (u : ℕ). Inv (suc n) (record q { top = u }) o (update thief j away) ws (x ∷ xs)) one_up
      (subst
        (λ (y : ℕ). Inv (suc n) (record q { top = q.top + 1 }) o (update thief j away) ws (y ∷ xs))
        (sym x_first) (move_on (raise i at) j away tt))

step_from :
    {n : ℕ} {q q' : Deque} {o : Owner} {p p' : Thief} {e : Event} {thief : ℕ → Thief}
    {ws xs : List ℕ} (j : ℕ)
    → n < 2 ^ 63
    → ThiefStep q p e q' p'
    → ThiefKnows q (limit q o) p
    → Inv n q o thief ws xs
    → Inv (suc n) q' o (update thief j p') (log_pushed e ws) (log_returned e xs)
step_from j small load_top k i = move_on (later i) j _ (omega arith)
step_from {q = q} {o = o} j small (load_bottom {t} lt) k i =
    move_on (later i) j (passed t) (k, λ e. omega (arith, bottom-le-limit q o i.owner))
step_from j small (see_empty le) k i = move_on (later i) j away tt
step_from {q = q} j small (load_array {t}) k i =
    move_on (later i) j (got_array t q.array) (k.0, i.shape.array_known, λ e. (k.1 e, refl))
step_from {q = q} j small (load_item {t} {a}) k i =
    move_on (later i) j (got_item t (slot (q.arrays a) t)) (k.0, k.2)
step_from j small (steal_win {t} {x} e) k i = win j t x small e k i
step_from {p = p} j small (steal_lose ne) k i = move_on (later i) j away tt

-- Every step of a thief keeps the invariant.
pub ThiefStep-Inv :
    {n : ℕ} {q q' : Deque} {o : Owner} {p' : Thief} {e : Event} {thief : ℕ → Thief} {ws xs : List ℕ}
    (j : ℕ)
    → n < 2 ^ 63
    → ThiefStep q (thief j) e q' p'
    → Inv n q o thief ws xs
    → Inv (suc n) q' o (update thief j p') (log_pushed e ws) (log_returned e xs)
ThiefStep-Inv j small st i = step_from j small st (i.thieves j) i
