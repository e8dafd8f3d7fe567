-- ===== src/WorkSteal/Race/Tests.antt =====
-- The theorems on the racing deque of hw3/work-steal.c at states that a schedule reaches.
use linux_summer.Prelude.{◌+◌, ◌≤◌, ◌≡◌, refl, [], ◌∷◌, count, arith, update}
use linux_summer.WorkSteal.Deque.{Deque, current, slot}
use linux_summer.WorkSteal.Deque.Inv.{IsValid}
use linux_summer.WorkSteal.Deque.Refine.{contents, items}
use linux_summer.WorkSteal.Race.{
  Owner, idle, Thief, got_item, System, owner_step, thief_step, start, Reach, here, next, load_top,
  load_bottom, load_array, load_item, steal_win, take_lower, take_one, take_lose, take_restore,
}
use linux_summer.WorkSteal.Race.Inv.{limit}
use linux_summer.WorkSteal.Race.Safety.{conservation, rest-IsValid, steal_first}

-- a deque with one item, for which the owner and a thief race
abbrev one : Deque
one = record {
  top = 6;
  bottom = 7;
  array = 0;
  arrays = λ _. record { size = 2; buffer = update (λ _. 11) 0 12 };
  allocated = 1;
}

-- the thief has read the item, and the owner has lowered `bottom`
abbrev close : System
close = record (start one) {
  deque = record one { bottom = 6 };
  owner = Owner.taking 6;
  thief =
      update
        (update (update (update (λ _. Thief.away) 3 (Thief.got_top 6)) 3 (Thief.passed 6)) 3
          (Thief.got_array 6 0))
        3 (got_item 6 12);
}

close_reached : Reach one 5 close
close_reached =
    next
      (next
        (next (next (next here (thief_step 3 load_top)) (thief_step 3 (load_bottom (omega arith))))
          (thief_step 3 load_array))
        (thief_step 3 load_item))
      (owner_step take_lower)

-- the thief wins; the owner finds its last item gone
abbrev over : System
over = record close {
  deque = record one { top = 7 };
  owner = idle;
  thief = update close.thief 3 Thief.away;
  returned = 12 ∷ [];
}

over_reached : Reach one 9 over
over_reached =
    next
      (next (next (next close_reached (owner_step (take_one refl))) (thief_step 3 (steal_win refl)))
        (owner_step (take_lose (omega arith))))
      (owner_step take_restore)

conservation_example :
    (count 12 over.returned ≤ count 12 over.pushed)
    × (over.owner ≡ idle
        → count 12 over.pushed ≡ count 12 over.returned + count 12 (contents over.deque))
conservation_example =
    conservation (omega arith) (omega arith) (omega arith) (omega arith) over_reached 12

rest-IsValid_example : IsValid over.deque
rest-IsValid_example =
    rest-IsValid (omega arith) (omega arith) (omega arith) (omega arith) over_reached refl

steal_first_example :
    (12 ≡ slot (current close.deque) close.deque.top)
    × (items close.deque.top (limit close.deque close.owner) (current close.deque)
        ≡ 12 ∷ items (close.deque.top + 1) (limit close.deque close.owner) (current close.deque))
steal_first_example =
    steal_first (omega arith) (omega arith) (omega arith) (omega arith) close_reached 3 6 12 refl
      refl
