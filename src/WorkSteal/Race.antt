-- ===== src/WorkSteal/Race.antt =====
-- The deque of hw3/work-steal.c under concurrency: its owner runs `push` and `take` while any
-- number of thieves run `steal`, one access to a shared variable at a time, in any order
-- (sequential consistency; the memory orders of the source are not modelled).
-- A read of what only the owner writes (`bottom`, `array`, the buffer) is joined to the access
-- after it when the owner makes it. The logs `pushed` and `returned` are no part of the program:
-- they record the items pushed and the items that takes and steals have got hold of.
pub mod Inv
pub mod Memory
pub mod OwnerSteps
pub mod ThiefSteps
pub mod Safety
mod Tests
use linux_summer.Prelude.{ℕ, suc, ◌≤◌, ◌<◌, ◌≡◌, ◌≢◌, List, [], ◌∷◌, true, false, update}
use linux_summer.Prelude.Mod.{add_size, sub_size}
use linux_summer.WorkSteal.Deque.{Deque, current, slot, empty, grown, install, store, is_full}
use linux_summer.WorkSteal.Deque.Refine.{contents}

-- where the owner stands in `push` or `take`, with the locals that are live there
pub data Owner : Type 0 where
  idle : Owner
  pushing : (w b t : ℕ) → Owner  -- before the test for a full queue
  growing : (w b t : ℕ) → Owner  -- in `resize`, with its own `top` read
  writing : (w b : ℕ) → Owner  -- before the store to the buffer
  publishing : (w b : ℕ) → Owner  -- before the store to `bottom`
  taking : (b : ℕ) → Owner  -- before the load of `top`
  last : (b x : ℕ) → Owner  -- before the compare-and-swap
  restoring : (b x : ℕ) → Owner  -- before the last store to `bottom`

-- where a thief stands in `steal`
pub data Thief : Type 0 where
  away : Thief
  got_top : (t : ℕ) → Thief
  passed : (t : ℕ) → Thief  -- `t < b` held
  got_array : (t a : ℕ) → Thief
  got_item : (t x : ℕ) → Thief  -- before the compare-and-swap

pub record System : Type 0 where
  pub deque : Deque
  pub owner : Owner
  pub thief : ℕ → Thief
  pub pushed : List ℕ
  pub returned : List ℕ

-- The owner's steps: the deque and where the owner stands, before and after, with the item that
-- the step publishes or gets hold of.
pub data Event : Type 0 where
  quiet : Event
  publishes gets : ℕ → Event

pub data OwnerStep (q : Deque) : Owner → Event → Deque → Owner → Type 0 where
  push_load : (w : ℕ) → OwnerStep q idle quiet q (pushing w q.bottom q.top)
  push_full :
      {w b t : ℕ}
      → is_full b t (current q) ≡ true
      → OwnerStep q (pushing w b t) quiet q (growing w b q.top)
  push_grow :
      {w b t : ℕ} (fresh : ℕ → ℕ)
      → OwnerStep q
          (growing w b t)
          quiet
          (install q (grown fresh (current q) t q.bottom))
          (writing w b)
  push_room :
      {w b t : ℕ}
      → is_full b t (current q) ≡ false
      → OwnerStep q (pushing w b t) quiet q (writing w b)
  push_write : {w b : ℕ} → OwnerStep q (writing w b) quiet (store q q.array b w) (publishing w b)
  push_publish :
      {w b : ℕ}
      → OwnerStep q (publishing w b) (publishes w) (record q { bottom = add_size b 1 }) idle
  take_lower :
      OwnerStep q idle quiet
        (record q { bottom = sub_size q.bottom 1 })
        (taking (sub_size q.bottom 1))
  take_many : {b : ℕ} → q.top < b → OwnerStep q (taking b) (gets (slot (current q) b)) q idle
  take_one : {b : ℕ} → q.top ≡ b → OwnerStep q (taking b) quiet q (last b (slot (current q) b))
  take_none : {b : ℕ} → b < q.top → OwnerStep q (taking b) quiet q (restoring b empty)
  take_win :
      {b x : ℕ}
      → q.top ≡ b
      → OwnerStep q (last b x) (gets x) (record q { top = add_size b 1 }) (restoring b x)
  take_lose : {b x : ℕ} → q.top ≢ b → OwnerStep q (last b x) quiet q (restoring b empty)
  take_restore :
      {b x : ℕ} → OwnerStep q (restoring b x) quiet (record q { bottom = add_size b 1 }) idle

pub data ThiefStep (q : Deque) : Thief → Event → Deque → Thief → Type 0 where
  load_top : ThiefStep q away quiet q (got_top q.top)
  load_bottom : {t : ℕ} → t < q.bottom → ThiefStep q (got_top t) quiet q (passed t)
  see_empty : {t : ℕ} → q.bottom ≤ t → ThiefStep q (got_top t) quiet q away
  load_array : {t : ℕ} → ThiefStep q (passed t) quiet q (got_array t q.array)
  load_item : {t a : ℕ} → ThiefStep q (got_array t a) quiet q (got_item t (slot (q.arrays a) t))
  steal_win :
      {t x : ℕ}
      → q.top ≡ t
      → ThiefStep q (got_item t x) (gets x) (record q { top = add_size t 1 }) away
  steal_lose : {t x : ℕ} → q.top ≢ t → ThiefStep q (got_item t x) quiet q away

abbrev pub log_pushed : Event → List ℕ → List ℕ
log_pushed (publishes w) ws = w ∷ ws
log_pushed _ ws = ws

abbrev pub log_returned : Event → List ℕ → List ℕ
log_returned (gets x) xs = x ∷ xs
log_returned _ xs = xs

pub data Step (s : System) : System → Type 0 where
  owner_step :
      {o : Owner} {e : Event} {q : Deque}
      → OwnerStep s.deque s.owner e q o
      → Step s (record s {
        deque = q;
        owner = o;
        pushed = log_pushed e s.pushed;
        returned = log_returned e s.returned;
      })
  thief_step :
      (j : ℕ) {o : Thief} {e : Event} {q : Deque}
      → ThiefStep s.deque (s.thief j) e q o
      → Step s (record s {
        deque = q;
        thief = update s.thief j o;
        pushed = log_pushed e s.pushed;
        returned = log_returned e s.returned;
      })

-- All threads at rest round a deque that was filled before they started, as `main` does.
abbrev pub start : Deque → System
start q = record { deque = q; owner = idle; thief = λ _. away; pushed = contents q; returned = [] }

-- The states that `n` steps lead to.
pub data Reach (q : Deque) : ℕ → System → Type 0 where
  here : Reach q 0 (start q)
  next : {n : ℕ} {s t : System} → Reach q n s → Step s t → Reach q (suc n) t
