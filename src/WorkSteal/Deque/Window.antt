-- ===== src/WorkSteal/Deque/Window.antt =====
-- The items of an array between two indices, and what writes and copies do to them.
use linux_summer.Prelude.{
  ℕ, zero, suc, ◌+◌, ◌%◌, ◌≤◌, ◌<◌, ◌≡◌, refl, sym, ap, ap₂, ◌∙◌, List, [], ◌∷◌, ◌++◌, arith,
  update-eq, update-ne, length, dec_lt,
}
use linux_summer.Prelude.Mod.{mod-ne_of_near}
use linux_summer.WorkSteal.Deque.{Array, slot, put_slot, copy}

-- the `n` items from index `i` on
abbrev pub window : Array → ℕ → ℕ → List ℕ
window a i zero = []
window a i (suc n) = slot a i ∷ window a (i + 1) n

pub length-window : (a : Array) (i n : ℕ) → length (window a i n) ≡ n
length-window a i zero = refl
length-window a i (suc n) = ap suc (length-window a (i + 1) n)

pub slot-put_slot_self : (a : Array) (i w : ℕ) → slot (put_slot a i w) i ≡ w
slot-put_slot_self a i w = update-eq a.buffer (i % a.size) (i % a.size) w refl

-- A write leaves the slots of all indices less than a turn away alone.
pub slot-put_slot_near :
    (a : Array) (i j w : ℕ) → i < j → j < i + a.size → slot (put_slot a j w) i ≡ slot a i
slot-put_slot_near a i j w lt near =
    update-ne a.buffer (j % a.size) (i % a.size) w (λ e. mod-ne_of_near a.size i j lt near (sym e))

pub slot-put_slot_far :
    (a : Array) (i j w : ℕ) → j < i → i < j + a.size → slot (put_slot a j w) i ≡ slot a i
slot-put_slot_far a i j w lt near =
    update-ne a.buffer (j % a.size) (i % a.size) w (mod-ne_of_near a.size j i lt near)

-- Windows agree if their slots do.
pub window-ext :
    (a c : Array) (i n : ℕ)
    → ((j : ℕ) → i ≤ j → j < i + n → slot a j ≡ slot c j)
    → window a i n ≡ window c i n
window-ext a c i zero h = refl
window-ext a c i (suc n) h =
    ap₂ ◌∷◌ (h i (omega arith) (omega arith))
      (window-ext a c (i + 1) n (λ j p q. h j (omega arith) (omega arith)))

pub window-snoc : (a : Array) (i n : ℕ) → window a i (suc n) ≡ window a i n ++ (slot a (i + n) ∷ [])
window-snoc a i zero = ap (λ (k : ℕ). slot a k ∷ []) (omega arith)
window-snoc a i (suc n) =
    ap (◌∷◌ (slot a i)) (
      window-snoc a (i + 1) n ∙ ap (λ (k : ℕ). window a (i + 1) n ++ (slot a k ∷ [])) (omega arith))

-- The copy of `resize` leaves the slots before its range alone, ...
copy-before :
    (old new : Array) (n i j : ℕ)
    → j < i
    → i + n ≤ j + new.size
    → slot (copy old n i new) j ≡ slot new j
unfolding copy
copy-before old new zero i j lt fits = refl
copy-before old new (suc n) i j lt fits =
    copy-before old (put_slot new i (slot old i)) n (i + 1) j (omega arith) (omega arith)
    ∙ slot-put_slot_near new j i (slot old i) lt (omega arith)

-- ... and carries over each slot in it, if the range fits the new array.
pub slot-copy :
    (old new : Array) (n i j : ℕ)
    → n ≤ new.size
    → i ≤ j
    → j < i + n
    → slot (copy old n i new) j ≡ slot old j
unfolding copy
slot-copy old new zero i j fits le lt = absurd (omega arith)
slot-copy old new (suc n) i j fits le lt = elim (dec_lt i j) [
  | yes later ↦
      slot-copy old (put_slot new i (slot old i)) n (i + 1) j (omega arith) (omega arith)
        (omega arith)
  | no first ↦
      let e : i ≡ j = omega arith in
      rw (← e) (
        copy-before old (put_slot new i (slot old i)) n (i + 1) i (omega arith) (omega arith)
        ∙ slot-put_slot_self new i (slot old i))
]

pub size-copy : (old new : Array) (n i : ℕ) → (copy old n i new).size ≡ new.size
unfolding copy
size-copy old new zero i = refl
size-copy old new (suc n) i = size-copy old (put_slot new i (slot old i)) n (i + 1)
