-- ===== src/WorkSteal/Deque/Ends.antt =====
-- `take` and `steal` of hw3/work-steal.c against the two ends of the list, and any run of calls.
use linux_summer.Prelude.{
  ℕ, ◌+◌, ◌-◌, ◌^◌, ◌≤◌, ◌<◌, ◌≡◌, refl, ap, ◌∙◌, arith, List, [], ◌∷◌, length,
}
use linux_summer.Prelude.Mod.{add_size, sub_size}
use linux_summer.WorkSteal.Deque.{Array, Deque, current, slot, push, take, steal}
use linux_summer.WorkSteal.Deque.Spec
use linux_summer.WorkSteal.Deque.Spec.{Op, pop_back, pop_front, pop_back-append}
use linux_summer.WorkSteal.Deque.Inv.{IsValid}
use linux_summer.WorkSteal.Deque.Refine.{
  contents, items, items-snoc, items-cons, items-nil, push_lem,
}

pop_back-items :
    (t b : ℕ) (a : Array) → t < b → pop_back (items t b a) ≡ (slot a (b - 1), items t (b - 1) a)
pop_back-items t b a lt =
    ap (λ (k : ℕ). pop_back (items t k a)) {y = b - 1 + 1} (omega arith)
    ∙ ap pop_back (items-snoc t (b - 1) a (omega arith))
    ∙ pop_back-append (items t (b - 1) a) (slot a (b - 1))

-- what `take` should return, and leave
pub record Taken (q : Deque) (x : ℕ) (q' : Deque) : Type 0 where
  pub valid : IsValid q'
  pub started : 0 < q'.bottom
  pub result : (x, contents q') ≡ pop_back (contents q)

pub take_lem : (q : Deque) → IsValid q → 0 < q.bottom → Taken q (take q).0 (take q).1
unfolding take pop_back
take_lem q v pos = record {
  valid = ground (arith, before);
  started = ground (arith, before);
  result = ground (
    arith,
    before,
    after,
    pop_back-items q.top q.bottom (current q),
    items-nil q.top q.bottom (current q),
    items-nil q.top (q.bottom - 1) (current q),
    items-nil (q.top + 1) q.bottom (current q),
  );
}
  where
    before : sub_size q.bottom 1 ≡ q.bottom - 1
    before = omega arith

    after : add_size (q.bottom - 1) 1 ≡ q.bottom
    after = omega arith

pub steal_lem :
    (q : Deque)
    → IsValid q
    → 0 < q.bottom
    → IsValid (steal q).1
      × (0 < (steal q).1.bottom)
      × (((steal q).0, contents (steal q).1) ≡ pop_front (contents q))
unfolding steal pop_front
steal_lem q v pos =
    ground (arith, items-cons q.top q.bottom (current q), items-nil q.top q.bottom (current q))

-- the calls of one thread that owns the deque, and what its takes and steals return
unfoldable pub run : (ℕ → ℕ) → List Op → Deque → List ℕ
run fresh [] q = []
run fresh (Op.push w ∷ ops) q = run fresh ops (push fresh q w)
run fresh (Op.take ∷ ops) q = let (x, q') = take q in x ∷ run fresh ops q'
run fresh (Op.steal ∷ ops) q = let (x, q') = steal q in x ∷ run fresh ops q'

bottom-push :
    (fresh : ℕ → ℕ) (q : Deque) (w : ℕ)
    → IsValid q
    → q.bottom + 1 < 2 ^ 63
    → (push fresh q w).bottom ≡ q.bottom + 1
unfolding push
bottom-push fresh q w v h = ground arith

bottom-take : (q : Deque) → IsValid q → 0 < q.bottom → (take q).1.bottom ≤ q.bottom
unfolding take
bottom-take q v h = ground arith

bottom-steal : (q : Deque) → (steal q).1.bottom ≡ q.bottom
unfolding steal
bottom-steal q = ground arith

-- Any sequence of pushes, takes and steals on a valid deque that has seen a push returns what the
-- same calls return on the list of its items, as long as `bottom` stays below 2^63.
pub run_refines :
    (fresh : ℕ → ℕ) (ops : List Op) (q : Deque)
    → IsValid q
    → 0 < q.bottom
    → q.bottom + length ops < 2 ^ 63
    → run fresh ops q ≡ Spec.run ops (contents q)
unfolding run Spec.run
run_refines fresh [] q v pos small = refl
run_refines fresh (Op.push w ∷ ops) q v pos small =
    let (v', e) = push_lem fresh q w v (omega arith) in
    run_refines fresh ops (push fresh q w) v' (omega (arith, bottom-push fresh q w v))
      (omega (arith, bottom-push fresh q w v))
    ∙ ap (Spec.run ops) e
run_refines fresh (Op.take ∷ ops) q v pos small =
    let t = take_lem q v pos in
    ap (λ (xs : List ℕ). (take q).0 ∷ xs)
      (run_refines fresh ops (take q).1 t.valid t.started (omega (arith, bottom-take q v pos)))
    ∙ ap (λ (r : ℕ × List ℕ). r.0 ∷ Spec.run ops r.1) t.result
run_refines fresh (Op.steal ∷ ops) q v pos small =
    let (v', pos', e) = steal_lem q v pos in
    ap (λ (xs : List ℕ). (steal q).0 ∷ xs)
      (run_refines fresh ops (steal q).1 v' pos' (omega (arith, bottom-steal q)))
    ∙ ap (λ (r : ℕ × List ℕ). r.0 ∷ Spec.run ops r.1) e
