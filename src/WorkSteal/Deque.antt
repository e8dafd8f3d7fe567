-- ===== src/WorkSteal/Deque.antt =====
-- The deque of hw3/work-steal.c, each function run with no other thread between its accesses.
-- A `work_t *` is its address. Arrays live in a heap, since a resize leaks the old one and a
-- thief may still read it. `fresh` is what `malloc` returns in the new buffer.
pub mod Window
pub mod Inv
pub mod Spec
pub mod Refine
pub mod Ends
mod Tests
use linux_summer.Prelude.{
  ℕ, zero, suc, ◌+◌, ◌-◌, ◌*◌, ◌%◌, ◌^◌, Bool, if◌then◌else◌, ltb, leb, ◌==◌, update,
}
use linux_summer.Prelude.Mod.{add_size, sub_size}

-- `EMPTY` and `ABORT`
abbrev pub empty : ℕ
empty = 0x100

abbrev pub abort : ℕ
abort = 0x200

-- `array_t`
pub record Array : Type 0 where
  pub size : ℕ
  pub buffer : ℕ → ℕ

-- `deque_t`, with the heap of its arrays: `array` names one, those from `allocated` on are free.
pub record Deque : Type 0 where
  pub top : ℕ
  pub bottom : ℕ
  pub array : ℕ
  pub arrays : ℕ → Array
  pub allocated : ℕ

-- the array that `q->array` points to
abbrev pub current : Deque → Array
current q = q.arrays q.array

-- `a->buffer[i % a->size]`
abbrev pub slot : Array → ℕ → ℕ
slot a i = a.buffer (i % a.size)

abbrev pub put_slot : Array → ℕ → ℕ → Array
put_slot a i w = record { size = a.size; buffer = update a.buffer (i % a.size) w }

pub init : (ℕ → ℕ) → ℕ → Deque
init fresh size_hint = record {
  top = 0;
  bottom = 0;
  array = 0;
  arrays = λ _. record { size = size_hint; buffer = fresh };
  allocated = 1;
}

-- The loop of `resize`, with `n` rounds to go from index `i`.
pub copy : Array → ℕ → ℕ → Array → Array
copy old zero i new = new
copy old (suc n) i new = copy old n (i + 1) (put_slot new i (slot old i))

-- The array that `resize` builds, for the indices from `t` up to `b`.
pub grown : (ℕ → ℕ) → Array → ℕ → ℕ → Array
unfolding copy
grown fresh old t b = copy old (b - t) t (record { size = old.size * 2 % 2 ^ 64; buffer = fresh })

-- A new array becomes the current one; the old one stays where it is.
abbrev pub install : Deque → Array → Deque
install q new = record q {
  array = q.allocated;
  arrays = update q.arrays q.allocated new;
  allocated = q.allocated + 1;
}

pub resize : (ℕ → ℕ) → Deque → Deque
unfolding grown
resize fresh q = install q (grown fresh (current q) q.top q.bottom)

-- `a->buffer[i % a->size] = w` in the array number `a`
abbrev pub store : Deque → ℕ → ℕ → ℕ → Deque
store q a i w = record q { arrays = update q.arrays a (put_slot (q.arrays a) i w) }

-- the test for a full queue, on what `push` has read of `bottom` and `top`
abbrev pub is_full : ℕ → ℕ → Array → Bool
is_full b t a = ltb (sub_size a.size 1) (sub_size b t)

pub push : (ℕ → ℕ) → Deque → ℕ → Deque
unfolding resize
push fresh q w =
    let b = q.bottom in
    let q₁ = if is_full b q.top (current q) then resize fresh q else q in
    let q₂ = store q₁ q₁.array b w in record q₂ { bottom = add_size b 1 }

-- The compare-and-swap on `top` cannot fail here, since no other thread runs.
pub take : Deque → ℕ × Deque
take q =
    let b = sub_size q.bottom 1 in
    let x = slot (current q) b in
    if leb q.top b
    then (if q.top == b
        then (x, record q { top = add_size q.top 1; bottom = add_size b 1 })
        else (x, record q { bottom = b }))
    else (empty, record q { bottom = add_size b 1 })

pub steal : Deque → ℕ × Deque
steal q =
    if ltb q.top q.bottom
    then (slot (current q) q.top, record q { top = add_size q.top 1 })
    else (empty, q)
