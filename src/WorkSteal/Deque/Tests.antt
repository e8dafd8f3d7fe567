-- ===== src/WorkSteal/Deque/Tests.antt =====
-- The theorems on the deque of hw3/work-steal.c at concrete inputs, and runs of its functions.
use linux_summer.Prelude.{ℕ, ◌≡◌, refl, List, [], ◌∷◌, arith, update}
use linux_summer.WorkSteal.Deque.{Deque, push, take, steal, empty}
use linux_summer.WorkSteal.Deque.Spec
use linux_summer.WorkSteal.Deque.Spec.{Op, pop_back}
use linux_summer.WorkSteal.Deque.Refine.{contents}
use linux_summer.WorkSteal.Deque.Ends.{run, run_refines}

abbrev junk : ℕ → ℕ
junk _ = 7

-- a full deque of two items
abbrev two : Deque
two = record {
  top = 5;
  bottom = 7;
  array = 0;
  arrays = λ _. record { size = 2; buffer = update (λ _. 11) 0 12 };
  allocated = 1;
}

two-contents : contents two ≡ 11 ∷ 12 ∷ []
two-contents = refl

push_grows : contents (push junk two 13) ≡ 11 ∷ 12 ∷ 13 ∷ []
unfolding push
push_grows = refl

abbrev calls : List Op
calls = Op.push 13 ∷ Op.take ∷ Op.steal ∷ Op.take ∷ Op.take ∷ []

run-two : run junk calls two ≡ 13 ∷ 11 ∷ 12 ∷ empty ∷ []
unfolding run push take steal
run-two = refl

run_refines_example : run junk calls two ≡ Spec.run calls (contents two)
run_refines_example = run_refines junk calls two (omega arith) (omega arith) (omega arith)
