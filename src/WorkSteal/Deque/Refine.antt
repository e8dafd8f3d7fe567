-- ===== src/WorkSteal/Deque/Refine.antt =====
-- Run alone, the functions of the deque are those of a double-ended queue of work items.
use linux_summer.Prelude.{
  ℕ, suc, ◌+◌, ◌-◌, ◌*◌, ◌%◌, ◌^◌, ◌≤◌, ◌<◌, ◌≡◌, refl, sym, ap, ap₂, subst, ◌∙◌, arith, Bool-cases,
  inl, inr, update-eq, List, [], ◌∷◌, ◌++◌,
}
use linux_summer.Prelude.Mod.{add_size}
use linux_summer.WorkSteal.Deque.{
  Array, Deque, current, slot, put_slot, grown, resize, copy, store, is_full, push,
}
use linux_summer.WorkSteal.Deque.Window.{
  window, window-ext, window-snoc, slot-put_slot_self, slot-put_slot_near, slot-copy,
}
use linux_summer.WorkSteal.Deque.Inv.{
  Fits, IsValid, is_full_lem, not_full, size-grown, current-install,
}

-- the items of a deque, the one to steal first
abbrev pub contents : Deque → List ℕ
contents q = window (current q) q.top (q.bottom - q.top)

abbrev pub items : ℕ → ℕ → Array → List ℕ
items t b a = window a t (b - t)

-- A full array grown: twice the room, the same items.
record Grown (t b : ℕ) (a a' : Array) : Type 0 where
  fit : Fits t b a'
  room : b < t + a'.size
  same_items : items t b a' ≡ items t b a

grown-Grown :
    (fresh : ℕ → ℕ) (t b : ℕ) (a : Array)
    → Fits t b a
    → b ≡ t + a.size
    → Grown t b a (grown fresh a t b)
unfolding grown
grown-Grown fresh t b a v full = record {
  fit = record {
    ordered = ordered;
    fits = omega (arith, sized);
    some_room = omega (arith, sized);
    size_small = omega (arith, sized);
    index_small = index_small;
  };
  room = omega (arith, sized);
  same_items =
      window-ext (copy a (b - t) t blank) a t (b - t)
        (λ j p lt. slot-copy a blank (b - t) t j (omega arith) p lt);
}
  where
    open v use {ordered, some_room, index_small}

    blank : Array
    blank = record { size = a.size * 2 % 2 ^ 64; buffer = fresh }

    sized : (grown fresh a t b).size ≡ a.size * 2
    sized = omega (arith, size-grown fresh a t b)

-- Writing at `bottom` and raising it adds an item at the end.
resize-Grown :
    (fresh : ℕ → ℕ) (q : Deque)
    → IsValid q
    → q.bottom ≡ q.top + (current q).size
    → Grown q.top q.bottom (current q) (current (resize fresh q))
unfolding resize
resize-Grown fresh q v full =
    subst (Grown q.top q.bottom (current q)) (sym (current-install q _))
      (grown-Grown fresh q.top q.bottom (current q) v full)

pub items-snoc : (t b : ℕ) (a : Array) → t ≤ b → items t (b + 1) a ≡ items t b a ++ (slot a b ∷ [])
items-snoc t b a le =
    ap (window a t) {y = suc (b - t)} (omega arith)
    ∙ window-snoc a t (b - t)
    ∙ ap (λ (k : ℕ). items t b a ++ (slot a k ∷ [])) (omega arith)

pub items-nil : (t b : ℕ) (a : Array) → b ≤ t → items t b a ≡ []
items-nil t b a le = ap (window a t) {y = 0} (omega arith)

pub items-cons : (t b : ℕ) (a : Array) → t < b → items t b a ≡ slot a t ∷ items (t + 1) b a
items-cons t b a lt = let e : b - t ≡ suc (b - (t + 1)) = omega arith in ap (window a t) e

items-put_slot :
    (t b w : ℕ) (a : Array)
    → t ≤ b
    → b < t + a.size
    → items t (b + 1) (put_slot a b w) ≡ items t b a ++ (w ∷ [])
items-put_slot t b w a le room =
    items-snoc t b (put_slot a b w) le
    ∙ ap₂ (λ (xs : List ℕ) (y : ℕ). xs ++ (y ∷ []))
        (window-ext (put_slot a b w) a t (b - t)
          (λ j p lt. slot-put_slot_near a j b w (omega arith) (omega arith)))
        (slot-put_slot_self a b w)

-- The store of `push` into a deque with room, and the step of `bottom` after it.
add_item : (q : Deque) (w : ℕ) → Deque
add_item q w = let q₂ = store q q.array q.bottom w in record q₂ { bottom = add_size q.bottom 1 }

add_item_lem :
    (q : Deque) (w : ℕ)
    → IsValid q
    → q.bottom < q.top + (current q).size
    → q.bottom + 1 < 2 ^ 63
    → IsValid (add_item q w) × (contents (add_item q w) ≡ contents q ++ (w ∷ []))
unfolding add_item
add_item_lem q w v room small =
    subst (λ (a : Array). Fits q.top bottom' a × (items q.top bottom' a ≡ contents q ++ (w ∷ [])))
      (sym (update-eq q.arrays q.array q.array (put_slot (current q) q.bottom w) refl))
      (
        fit,
        ap (λ (b : ℕ). items q.top b (put_slot (current q) q.bottom w)) (omega arith)
            ∙ items-put_slot q.top q.bottom w (current q) v.ordered room,
      )
  where
    bottom' : ℕ
    bottom' = add_size q.bottom 1

    fit : Fits q.top bottom' (put_slot (current q) q.bottom w)
    fit = omega arith

-- `push` on a valid deque keeps it valid, grows the array if it is full, and adds the item at the
-- back, as long as `bottom` does not reach 2^63.
pub push_lem :
    (fresh : ℕ → ℕ) (q : Deque) (w : ℕ)
    → IsValid q
    → q.bottom + 1 < 2 ^ 63
    → IsValid (push fresh q w) × (contents (push fresh q w) ≡ contents q ++ (w ∷ []))
unfolding push add_item
push_lem fresh q w v small = elim (Bool-cases (is_full q.bottom q.top (current q))) [
  | inl e ↦ rw e (
      let g = resize-Grown fresh q v (is_full_lem v e) in
      let r = add_item_lem (resize fresh q) w g.fit g.room small in
      (r.0, r.1 ∙ ap (λ (xs : List ℕ). xs ++ (w ∷ [])) g.same_items))
  | inr e ↦ rw e (add_item_lem q w v (not_full v e) small)
]
