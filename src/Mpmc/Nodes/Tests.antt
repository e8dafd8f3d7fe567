-- ===== src/Mpmc/Nodes/Tests.antt =====
-- A thread puts two values and another takes one: the first of each gets the first cell of the first node.
use mathlib.Core.List.{Memᴰ}
use linux_summer.Prelude.{◌≡◌, refl, [], ◌∷◌, arith}
use linux_summer.Mpmc.Nodes.{
  push, pop, Place, System, register, draw_put, draw_pop, arrive, leave, Reach, here, next,
}
use linux_summer.Mpmc.Nodes.SameCell.{same_cell}

abbrev put_place : Place
put_place = record { ticket = 0; node = 1; offset = 0 }

abbrev next_place : Place
next_place = record { ticket = 1; node = 1; offset = 1 }

abbrev put_run : (s : System) × Reach 1 s × (s.located ≡ put_place ∷ (put_place ∷ []))
put_run = (
  _,
  next
      (next
        (next
          (next
            (next (next here (register 0 2 refl (omega arith) refl))
              (register 1 3 refl (omega arith) refl))
            (draw_put 0 refl))
          (draw_pop 1 refl))
        (arrive 0 0 1 0 push refl (omega arith)))
      (arrive 1 0 1 0 pop refl (omega arith)),
  refl,
)

abbrev run : (s : System) × Reach 1 s × (s.located ≡ next_place ∷ (put_place ∷ (put_place ∷ [])))
run = (
  _,
  next (next (next put_run.1 (leave 0 0 1 0 push refl)) (draw_put 0 refl))
      (arrive 0 1 1 0 push refl (omega arith)),
  refl,
)

same_cell_example :
    (next_place.ticket ≡ put_place.ticket
      → (next_place.node ≡ put_place.node) × (next_place.offset ≡ put_place.offset))
    × (next_place.node ≡ put_place.node
        → next_place.offset ≡ put_place.offset
        → next_place.ticket ≡ put_place.ticket)
same_cell_example =
    same_cell 1 (omega arith) run.0 run.1 next_place put_place (Memᴰ.head refl)
      (Memᴰ.tail (Memᴰ.head refl))
