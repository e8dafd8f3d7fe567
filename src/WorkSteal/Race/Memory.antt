-- ===== src/WorkSteal/Race/Memory.antt =====
-- What a step of the owner does to the buffers: the slots that thieves may read stay as they are.
use linux_summer.Prelude.{
  ℕ, ◌^◌, ◌≤◌, ◌<◌, ◌≡◌, refl, ap, ◌∙◌, arith, update-eq, update-ne, ℕ_discrete,
}
use linux_summer.WorkSteal.Deque.{Array, Deque, current, slot, put_slot, grown, install, store}
use linux_summer.WorkSteal.Deque.Window.{slot-put_slot_near}
use linux_summer.WorkSteal.Deque.Inv.{slot-grown, current-install}
use linux_summer.WorkSteal.Race.{
  Owner, Thief, away, got_top, passed, got_array, got_item, growing, writing, Event, OwnerStep,
  push_load, push_full, push_grow, push_room, push_write, push_publish, take_lower, take_many,
  take_one, take_none, take_win, take_lose, take_restore,
}
use linux_summer.WorkSteal.Race.Inv.{limit, OwnerKnows, ThiefKnows, Shape}

pub size-install : (q : Deque) (a : Array) → (current (install q a)).size ≡ a.size
size-install q a = ap (λ (c : Array). c.size) (current-install q a)

pub current-store : (q : Deque) (b w : ℕ) → current (store q q.array b w) ≡ put_slot (current q) b w
current-store q b w = update-eq q.arrays q.array q.array (put_slot (current q) b w) refl

pub size-store : (q : Deque) (b w : ℕ) → (current (store q q.array b w)).size ≡ (current q).size
size-store q b w = ap (λ (c : Array). c.size) (current-store q b w)

-- From `q` with items up to `e` to `q'` with items up to `e'`.
pub record Keeps (q : Deque) (e : ℕ) (q' : Deque) (e' : ℕ) : Type 0 where
  pub top_up : q.top ≤ q'.top
  pub allocated_up : q.allocated ≤ q'.allocated
  pub first_stays : q'.top ≡ q.top → q.top < e → q.top < e'
  pub kept : (j : ℕ) → q.top ≤ j → j < e → slot (current q') j ≡ slot (current q) j
  pub arrays_kept :
      (a : ℕ) → a < q.allocated → q.top < e → slot (q'.arrays a) q.top ≡ slot (q.arrays a) q.top

pub ThiefKnows-Keeps :
    {q q' : Deque} {e e' : ℕ} (p : Thief) → Keeps q e q' e' → ThiefKnows q e p → ThiefKnows q' e' p
ThiefKnows-Keeps away k h = tt
ThiefKnows-Keeps (got_top t) k h = omega arith
ThiefKnows-Keeps (passed t) k h = omega arith
ThiefKnows-Keeps {q} (got_array t a) k h =
    (omega arith, omega arith, λ e. ground (arith, k.kept q.top, k.arrays_kept a, h.2))
ThiefKnows-Keeps {q} (got_item t x) k h = (omega arith, λ e. ground (arith, k.kept q.top, h.1))

-- A step that writes to no buffer.
no_write :
    (q q' : Deque) (e e' : ℕ)
    → q.arrays ≡ q'.arrays
    → q.array ≡ q'.array
    → q.allocated ≡ q'.allocated
    → q.top ≤ q'.top
    → (q'.top ≡ q.top → q.top < e → q.top < e')
    → Keeps q e q' e'
no_write q q' e e' same same' same'' up first = record {
  top_up = up;
  allocated_up = omega arith;
  first_stays = first;
  kept = λ j p lt. cc;
  arrays_kept = λ a p lt. cc;
}

module _ {n : ℕ} {q : Deque} (small : n < 2 ^ 63) where
  grow-Keeps :
      (fresh : ℕ → ℕ) (w b t : ℕ)
      → Shape n q q.bottom
      → OwnerKnows q (growing w b t)
      → let q' = install q (grown fresh (current q) t q.bottom) in Keeps q q.bottom q' q'.bottom
  grow-Keeps fresh w b t s k = record {
    top_up = omega arith;
    allocated_up = omega arith;
    first_stays = λ e lt. lt;
    kept = λ j p lt.
        ap (λ (c : Array). slot c j) (current-install q _)
        ∙ slot-grown fresh (current q) t q.bottom j (omega arith) (omega arith) lt;
    arrays_kept = λ a p lt.
        ap (λ (c : Array). slot c q.top) (update-ne q.arrays q.allocated a _ (omega arith));
  }

  write-Keeps :
      (w b : ℕ)
      → Shape n q q.bottom
      → OwnerKnows q (writing w b)
      → Keeps q q.bottom (store q q.array b w) q.bottom
  write-Keeps w b s k = record {
    top_up = omega arith;
    allocated_up = omega arith;
    first_stays = λ e lt. lt;
    kept = λ j p lt.
        ap (λ (c : Array). slot c j) (current-store q b w)
        ∙ slot-put_slot_near (current q) j b w (omega arith) (omega arith);
    arrays_kept = λ a p lt. elim (ℕ_discrete q.array a) [
      | yes e ↦
          ap (λ (c : Array). slot c q.top) (update-eq q.arrays q.array a _ e)
          ∙ slot-put_slot_near (current q) q.top b w (omega arith) (omega arith)
          ∙ ap (λ (m : ℕ). slot (q.arrays m) q.top) e
      | no ne ↦ ap (λ (c : Array). slot c q.top) (update-ne q.arrays q.array a _ ne)
    ];
  }

  pub OwnerStep-Keeps :
      {o o' : Owner} {e : Event} {q' : Deque}
      → Shape n q (limit q o)
      → OwnerKnows q o
      → OwnerStep q o e q' o'
      → Keeps q (limit q o) q' (limit q' o')
  OwnerStep-Keeps s k (push_load w) = no_write q q _ _ refl refl refl (omega arith) (omega arith)
  OwnerStep-Keeps s k (push_full f) = no_write q q _ _ refl refl refl (omega arith) (omega arith)
  OwnerStep-Keeps s k (push_grow {w} {b} {t} fresh) = grow-Keeps fresh w b t s k
  OwnerStep-Keeps s k (push_room f) = no_write q q _ _ refl refl refl (omega arith) (omega arith)
  OwnerStep-Keeps s k (push_write {w} {b}) = write-Keeps w b s k
  OwnerStep-Keeps s k push_publish = no_write q _ _ _ refl refl refl (omega arith) (omega arith)
  OwnerStep-Keeps s k take_lower = no_write q _ _ _ refl refl refl (omega arith) (omega arith)
  OwnerStep-Keeps s k (take_many lt) = no_write q q _ _ refl refl refl (omega arith) (omega arith)
  OwnerStep-Keeps s k (take_one e) = no_write q q _ _ refl refl refl (omega arith) (omega arith)
  OwnerStep-Keeps s k (take_none lt) = no_write q q _ _ refl refl refl (omega arith) (omega arith)
  OwnerStep-Keeps s k (take_win e) = no_write q _ _ _ refl refl refl (omega arith) (omega arith)
  OwnerStep-Keeps s k (take_lose ne) = no_write q q _ _ refl refl refl (omega arith) (omega arith)
  OwnerStep-Keeps s k take_restore = no_write q _ _ _ refl refl refl (omega arith) (omega arith)
