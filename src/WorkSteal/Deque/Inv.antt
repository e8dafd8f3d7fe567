-- ===== src/WorkSteal/Deque/Inv.antt =====
-- The representation invariant of `deque_t`.
use linux_summer.Prelude.{
  ℕ, ◌+◌, ◌-◌, ◌*◌, ◌%◌, ◌^◌, ◌≤◌, ◌<◌, ◌≡◌, refl, arith, true, false, update-eq,
}
use linux_summer.WorkSteal.Deque.{Array, Deque, current, slot, grown, install, is_full}
use linux_summer.WorkSteal.Deque.Window.{size-copy, slot-copy}

-- What holds of `top`, `bottom` and the current array: the items fit, and no index wraps.
pub record Fits (t b : ℕ) (a : Array) : Type 0 where
  pub ordered : t ≤ b
  pub fits : b ≤ t + a.size
  pub some_room : 0 < a.size
  pub size_small : a.size < 2 ^ 64
  pub index_small : b < 2 ^ 63

abbrev pub IsValid : Deque → Type 0
IsValid q = Fits q.top q.bottom (current q)

pub is_full_lem : {t b : ℕ} {a : Array} → Fits t b a → is_full b t a ≡ true → b ≡ t + a.size
is_full_lem v e = ground arith

pub not_full : {t b : ℕ} {a : Array} → Fits t b a → is_full b t a ≡ false → b < t + a.size
not_full v e = ground arith

pub size-grown :
    (fresh : ℕ → ℕ) (a : Array) (t b : ℕ) → (grown fresh a t b).size ≡ a.size * 2 % 2 ^ 64
unfolding grown
size-grown fresh a t b = size-copy a _ (b - t) t

pub current-install : (q : Deque) (a : Array) → current (install q a) ≡ a
current-install q a = update-eq q.arrays q.allocated q.allocated a refl

pub slot-grown :
    (fresh : ℕ → ℕ) (a : Array) (t b j : ℕ)
    → b - t ≤ a.size * 2 % 2 ^ 64
    → t ≤ j
    → j < b
    → slot (grown fresh a t b) j ≡ slot a j
unfolding grown
slot-grown fresh a t b j h le lt =
    slot-copy a (record { size = a.size * 2 % 2 ^ 64; buffer = fresh }) (b - t) t j h le
      (omega arith)
