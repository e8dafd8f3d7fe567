-- ===== src/WorkSteal/Race/Inv.antt =====
-- The invariant of the racing deque, over the end of its items that the owner's place decides.
use linux_summer.Prelude.{ℕ, ◌+◌, ◌^◌, ◌≤◌, ◌<◌, ◌≡◌, List, count}
use linux_summer.WorkSteal.Deque.{Deque, current, slot}
use linux_summer.WorkSteal.Deque.Refine.{items}
use linux_summer.WorkSteal.Race.{
  Owner, idle, pushing, growing, writing, publishing, taking, last, restoring, Thief, away, got_top,
  passed, got_array, got_item,
}

-- Until the owner has seen `top`, or has put `bottom` back, the item at `bottom` is still there.
abbrev pub limit : Deque → Owner → ℕ
limit q (taking b) = b + 1
limit q (last b x) = b + 1
limit q (restoring b x) = b + 1
limit q _ = q.bottom

-- what the owner's locals say of the deque
abbrev pub OwnerKnows : Deque → Owner → Type 0
OwnerKnows q (pushing w b t) = (b ≡ q.bottom) × (t ≤ q.top)
OwnerKnows q (growing w b t) =
    (b ≡ q.bottom) × (t ≤ q.top) × (q.bottom ≤ t + (current q).size) × ((current q).size ≤ q.bottom)
OwnerKnows q (writing w b) = (b ≡ q.bottom) × (b < q.top + (current q).size)
OwnerKnows q (publishing w b) =
    (b ≡ q.bottom) × (b < q.top + (current q).size) × (slot (current q) b ≡ w)
OwnerKnows q (taking b) = b ≡ q.bottom
OwnerKnows q (last b x) = (b ≡ q.bottom) × (b ≤ q.top) × (x ≡ slot (current q) b)
OwnerKnows q (restoring b x) = (b ≡ q.bottom) × (q.top ≡ b + 1)
OwnerKnows q idle = Unit

-- What a thief's locals say: all of it matters only while nobody has moved `top`.
abbrev pub ThiefKnows : Deque → ℕ → Thief → Type 0
ThiefKnows q e away = Unit
ThiefKnows q e (got_top t) = t ≤ q.top
ThiefKnows q e (passed t) = (t ≤ q.top) × (t ≡ q.top → t < e)
ThiefKnows q e (got_array t a) =
    (t ≤ q.top)
    × (a < q.allocated)
    × (t ≡ q.top → (t < e) × (slot (q.arrays a) t ≡ slot (current q) t))
ThiefKnows q e (got_item t x) = (t ≤ q.top) × (t ≡ q.top → (t < e) × (x ≡ slot (current q) t))

-- The numbers: `e` is the end of the items, `n` bounds it.
pub record Shape (n : ℕ) (q : Deque) (e : ℕ) : Type 0 where
  pub ordered : q.top ≤ e
  pub started : 0 < e
  pub few : e ≤ n
  pub fits : e ≤ q.top + (current q).size
  pub some_room : 0 < (current q).size
  pub size_small : (current q).size < 2 ^ 64
  pub array_known : q.array < q.allocated

abbrev pub Conserved : Deque → ℕ → List ℕ → List ℕ → Type 0
Conserved q e pushed returned =
    (w : ℕ) → count w pushed ≡ count w returned + count w (items q.top e (current q))

pub record Inv (n : ℕ) (q : Deque) (o : Owner) (thief : ℕ → Thief) (pushed returned : List ℕ)
    : Type 0 where
  pub shape : Shape n q (limit q o)
  pub owner : OwnerKnows q o
  pub thieves : (j : ℕ) → ThiefKnows q (limit q o) (thief j)
  pub conserved : Conserved q (limit q o) pushed returned
