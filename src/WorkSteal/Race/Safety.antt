-- ===== src/WorkSteal/Race/Safety.antt =====
-- What holds of the deque of hw3/work-steal.c in every state that the racing threads can reach.
use linux_summer.Prelude.{ℕ, suc, ◌+◌, ◌^◌, ◌≤◌, ◌<◌, ◌≡◌, sym, ap, subst, ◌∙◌, ◌∷◌, count, arith}
use linux_summer.WorkSteal.Deque.{Deque, current, slot}
use linux_summer.WorkSteal.Deque.Refine.{contents, items, items-cons}
use linux_summer.WorkSteal.Deque.Inv.{IsValid}
use linux_summer.WorkSteal.Race.{
  Owner, idle, got_item, System, Step, owner_step, thief_step, start, Reach, here, next,
}
use linux_summer.WorkSteal.Race.Inv.{limit, ThiefKnows, Shape, Inv}
use linux_summer.WorkSteal.Race.OwnerSteps.{OwnerStep-Inv}
use linux_summer.WorkSteal.Race.ThiefSteps.{ThiefStep-Inv}

abbrev InvAt : ℕ → System → Type 0
InvAt n s = Inv n s.deque s.owner s.thief s.pushed s.returned

Step-Inv : {n : ℕ} {s t : System} → Step s t → n < 2 ^ 63 → InvAt n s → InvAt (suc n) t
Step-Inv (owner_step st) small i = OwnerStep-Inv small st i
Step-Inv (thief_step j st) small i = ThiefStep-Inv j small st i

module _ {q : Deque} (v : IsValid q) (started : 0 < q.bottom) (known : q.array < q.allocated) where
  start-Inv : InvAt q.bottom (start q)
  start-Inv = record {
    shape = omega arith;
    owner = tt;
    thieves = λ j. tt;
    conserved = λ w. omega arith;
  }

  Reach-Inv : {n : ℕ} {s : System} → q.bottom + n < 2 ^ 63 → Reach q n s → InvAt (q.bottom + n) s
  Reach-Inv small here = subst (λ (m : ℕ). InvAt m (start q)) {x = q.bottom} (omega arith) start-Inv
  Reach-Inv small (next {n} {s} {t} r st) =
      subst (λ (m : ℕ). InvAt m t) {x = suc (q.bottom + n)} (omega arith)
        (Step-Inv st (omega arith) (Reach-Inv (omega arith) r))

  -- From a valid deque with an array that has seen a push, while `bottom` at the start plus the number of
  -- steps is below 2 ^ 63: in every state that its owner and thieves reach, no item has been handed out
  -- more often than it was pushed, and whenever the owner is between two calls, each item has been pushed
  -- as often as it was handed out and is still in the deque.
  pub conservation :
      {n : ℕ} {s : System}
      → q.bottom + n < 2 ^ 63
      → Reach q n s
      → (w : ℕ)
      → (count w s.returned ≤ count w s.pushed)
        × (s.owner ≡ idle → count w s.pushed ≡ count w s.returned + count w (contents s.deque))
  conservation {n} {s} small r w = (
    omega (arith, i.conserved w),
    λ e.
        i.conserved w
        ∙ ap
            (λ (o : Owner).
              count w s.returned + count w (items s.deque.top (limit s.deque o) (current s.deque)))
            e,
  )
    where
      i : InvAt (q.bottom + n) s
      i = Reach-Inv small r

  -- From a valid deque with an array that has seen a push, while `bottom` at the start plus the number of
  -- steps is below 2 ^ 63: in every state that its owner and thieves reach in which the owner is between
  -- two calls, `top`, `bottom` and the array form a valid deque again.
  pub rest-IsValid :
      {n : ℕ} {s : System} → q.bottom + n < 2 ^ 63 → Reach q n s → s.owner ≡ idle → IsValid s.deque
  rest-IsValid {n} {s} small r e = omega (
    arith,
    subst (λ (o : Owner). Shape (q.bottom + n) s.deque (limit s.deque o)) e
        (Reach-Inv small r).shape,
  )

  -- From a valid deque with an array that has seen a push, while `bottom` at the start plus the number of
  -- steps is below 2 ^ 63: in every state that its owner and thieves reach, a thief about to win the
  -- compare-and-swap of `steal` holds the item at `top` of the current array, which is the first of the
  -- items that are left.
  pub steal_first :
      {n : ℕ} {s : System}
      → q.bottom + n < 2 ^ 63
      → Reach q n s
      → (j t x : ℕ) → s.thief j ≡ got_item t x
      → s.deque.top ≡ t
      → (x ≡ slot (current s.deque) s.deque.top)
        × (items s.deque.top (limit s.deque s.owner) (current s.deque)
            ≡ x ∷ items (s.deque.top + 1) (limit s.deque s.owner) (current s.deque))
  steal_first {n} {s} small r j t x at e = (
    first,
    items-cons s.deque.top (limit s.deque s.owner) (current s.deque) lt
        ∙ ap (λ (y : ℕ). y ∷ items (s.deque.top + 1) (limit s.deque s.owner) (current s.deque))
            (sym first),
  )
    where
      held : ThiefKnows s.deque (limit s.deque s.owner) (got_item t x)
      held = subst (ThiefKnows s.deque (limit s.deque s.owner)) at ((Reach-Inv small r).thieves j)

      lt : s.deque.top < limit s.deque s.owner
      lt = omega (arith, held.1 (sym e))

      first : x ≡ slot (current s.deque) s.deque.top
      first = (held.1 (sym e)).1 ∙ ap (slot (current s.deque)) (sym e)
