-- ===== src/WorkSteal/Race/OwnerSteps.antt =====
-- A step of the owner of the deque keeps the invariant.
use linux_summer.Prelude.{
  ℕ, suc, ◌+◌, ◌-◌, ◌^◌, ◌≤◌, ◌<◌, ◌≡◌, refl, sym, ap, subst, ◌∙◌, List, [], ◌∷◌, count,
  count-append, arith,
}
use linux_summer.WorkSteal.Deque.{Array, Deque, current, slot, grown, install, store}
use linux_summer.Prelude.Mod.{add_size, sub_size}
use linux_summer.WorkSteal.Deque.Window.{window-ext, slot-put_slot_self}
use linux_summer.WorkSteal.Deque.Inv.{size-grown}
use linux_summer.WorkSteal.Deque.Refine.{items, items-snoc, items-nil}
use linux_summer.WorkSteal.Race.{
  Owner, OwnerStep, push_load, push_full, push_grow, push_room, push_write, push_publish,
  take_lower, take_many, take_one, take_none, take_win, take_lose, take_restore, Thief, Event,
  log_pushed, log_returned,
}
use linux_summer.WorkSteal.Race.Memory.{
  Keeps, size-install, current-store, size-store, ThiefKnows-Keeps, OwnerStep-Keeps,
}
use linux_summer.WorkSteal.Race.Inv.{limit, OwnerKnows, Shape, Conserved, Inv}

module _ {n : ℕ} {q : Deque} (small : n < 2 ^ 63) where
  OwnerStep-Shape :
      {o o' : Owner} {e : Event} {q' : Deque}
      → Shape n q (limit q o)
      → OwnerKnows q o
      → OwnerStep q o e q' o'
      → Shape (suc n) q' (limit q' o')
  OwnerStep-Shape s k (push_load w) = omega arith
  OwnerStep-Shape s k (push_full f) = omega arith
  OwnerStep-Shape s k (push_grow {w} {b} {t} fresh) = omega (
    arith,
    size-install q (grown fresh (current q) t q.bottom),
    size-grown fresh (current q) t q.bottom,
  )
  OwnerStep-Shape s k (push_room f) = omega arith
  OwnerStep-Shape s k (push_write {w} {b}) = omega (arith, size-store q b w)
  OwnerStep-Shape s k push_publish = omega arith
  OwnerStep-Shape s k take_lower = omega arith
  OwnerStep-Shape s k (take_many lt) = omega arith
  OwnerStep-Shape s k (take_one e) = omega arith
  OwnerStep-Shape s k (take_none lt) = omega arith
  OwnerStep-Shape s k (take_win e) = omega arith
  OwnerStep-Shape s k (take_lose ne) = omega arith
  OwnerStep-Shape s k take_restore = omega arith

  OwnerStep-Knows :
      {o o' : Owner} {e : Event} {q' : Deque}
      → Shape n q (limit q o)
      → OwnerKnows q o
      → OwnerStep q o e q' o'
      → OwnerKnows q' o'
  OwnerStep-Knows s k (push_load w) = omega arith
  OwnerStep-Knows s k (push_full {b = b} {t = t} f) = ground arith
  OwnerStep-Knows s k (push_grow {w} {b} {t} fresh) = omega (
    arith,
    size-install q (grown fresh (current q) t q.bottom),
    size-grown fresh (current q) t q.bottom,
  )
  OwnerStep-Knows s k (push_room f) = ground arith
  OwnerStep-Knows s k (push_write {w} {b}) = (
    k.0,
    omega (arith, size-store q b w),
    ap (λ (c : Array). slot c b) (current-store q b w) ∙ slot-put_slot_self (current q) b w,
  )
  OwnerStep-Knows s k push_publish = tt
  OwnerStep-Knows s k take_lower = refl
  OwnerStep-Knows s k (take_many lt) = tt
  OwnerStep-Knows s k (take_one e) = (k, omega arith, refl)
  OwnerStep-Knows s k (take_none lt) = omega arith
  OwnerStep-Knows s k (take_win e) = omega arith
  OwnerStep-Knows s k (take_lose ne) = omega arith
  OwnerStep-Knows s k take_restore = tt

-- Items that stay where they are.
same_items :
    (t e : ℕ) (a a' : Array)
    → ((j : ℕ) → t ≤ j → j < e → slot a' j ≡ slot a j)
    → items t e a' ≡ items t e a
same_items t e a a' h = window-ext a' a t (e - t) (λ j p lt. h j p (omega arith))

recount : (v : ℕ) (xs ys zs : List ℕ) → zs ≡ ys → count v xs + count v ys ≡ count v xs + count v zs
recount v xs ys zs e = ap (λ (l : List ℕ). count v xs + count v l) (sym e)

-- The item at the end comes in, or goes out.
end_item :
    (t b : ℕ) (a : Array)
    → t ≤ b
    → (v : ℕ) → count v (items t (b + 1) a) ≡ count v (items t b a) + count v (slot a b ∷ [])
end_item t b a le v =
    ap (count v) (items-snoc t b a le) ∙ count-append v (items t b a) (slot a b ∷ [])

-- The three steps at which an item comes in or goes out.
module _ (q : Deque) (ws xs : List ℕ) where
  publish-Conserved :
      (w b e : ℕ)
      → e ≡ b + 1
      → b ≡ q.bottom
      → q.top ≤ b
      → slot (current q) b ≡ w
      → Conserved q q.bottom ws xs
      → Conserved (record q { bottom = e }) e (w ∷ ws) xs
  publish-Conserved w b e grown_end k le stored c =
      subst (λ (i : ℕ). Conserved (record q { bottom = e }) i (w ∷ ws) xs) (sym grown_end)
        (λ v. omega (
          arith,
          subst (λ (i : ℕ). Conserved q i ws xs) (sym k) c v,
          end_item q.top b (current q) le v,
          ap (λ (y : ℕ). count v (y ∷ [])) stored,
        ))

  take-Conserved :
      (b : ℕ)
      → b ≡ q.bottom
      → q.top ≤ b
      → Conserved q (b + 1) ws xs
      → Conserved q q.bottom ws (slot (current q) b ∷ xs)
  take-Conserved b k le c =
      subst (λ (i : ℕ). Conserved q i ws (slot (current q) b ∷ xs)) k
        (λ v. omega (arith, c v, end_item q.top b (current q) le v))

  win-Conserved :
      (b x t : ℕ)
      → t ≡ b + 1
      → q.top ≡ b
      → x ≡ slot (current q) b
      → Conserved q (b + 1) ws xs
      → Conserved (record q { top = t }) (b + 1) ws (x ∷ xs)
  win-Conserved b x t raised at held c v = omega (
    arith,
    c v,
    end_item q.top b (current q) (omega arith) v,
    ap (count v) (items-nil q.top b (current q) (omega arith)),
    ap (count v) (items-nil t (b + 1) (current q) (omega arith)),
    ap (λ (y : ℕ). count v (y ∷ [])) held,
  )

module _ {n : ℕ} {q : Deque} (small : n < 2 ^ 63) (ws xs : List ℕ) where
  OwnerStep-Conserved :
      {o o' : Owner} {e : Event} {q' : Deque}
      → Shape n q (limit q o)
      → OwnerKnows q o
      → OwnerStep q o e q' o'
      → Keeps q (limit q o) q' (limit q' o')
      → Conserved q (limit q o) ws xs
      → Conserved q' (limit q' o') (log_pushed e ws) (log_returned e xs)
  OwnerStep-Conserved s k (push_load w) m c = c
  OwnerStep-Conserved s k (push_full f) m c = c
  OwnerStep-Conserved s k (push_grow {w} {b} {t} fresh) m c = λ v.
      c v
      ∙ recount v xs _ _ (
          same_items q.top q.bottom (current q)
            (current (install q (grown fresh (current q) t q.bottom))) m.kept)
  OwnerStep-Conserved s k (push_room f) m c = c
  OwnerStep-Conserved s k (push_write {w} {b}) m c = λ v.
      c v
      ∙ recount v xs _ _
          (same_items q.top q.bottom (current q) (current (store q q.array b w)) m.kept)
  OwnerStep-Conserved s k (push_publish {w} {b}) m c =
      publish-Conserved q ws xs w b (add_size b 1) (omega arith) k.0 (omega arith) k.2 c
  OwnerStep-Conserved s k take_lower m c = λ v.
      c v
      ∙ recount v xs _ _ (
          ap (λ (e : ℕ). items q.top e (current q)) {x = sub_size q.bottom 1 + 1} {y = q.bottom}
            (omega arith))
  OwnerStep-Conserved s k (take_many {b} lt) m c = take-Conserved q ws xs b k (omega arith) c
  OwnerStep-Conserved s k (take_one e) m c = c
  OwnerStep-Conserved s k (take_none lt) m c = c
  OwnerStep-Conserved s k (take_win {b} {x} e) m c =
      win-Conserved q ws xs b x (add_size b 1) (omega arith) e k.2 c
  OwnerStep-Conserved s k (take_lose ne) m c = c
  OwnerStep-Conserved s k (take_restore {b}) m c = λ v.
      c v
      ∙ recount v xs _ _
          (ap (λ (e : ℕ). items q.top e (current q)) {x = add_size b 1} {y = b + 1} (omega arith))

-- Every step of the owner keeps the invariant.
pub OwnerStep-Inv :
    {n : ℕ} {q q' : Deque} {o o' : Owner} {e : Event} {thief : ℕ → Thief} {ws xs : List ℕ}
    → n < 2 ^ 63
    → OwnerStep q o e q' o'
    → Inv n q o thief ws xs
    → Inv (suc n) q' o' thief (log_pushed e ws) (log_returned e xs)
OwnerStep-Inv {thief = thief} {ws = ws} {xs = xs} small st i =
    let k = OwnerStep-Keeps small i.shape i.owner st in
    record {
      shape = OwnerStep-Shape small i.shape i.owner st;
      owner = OwnerStep-Knows small i.shape i.owner st;
      thieves = λ j. ThiefKnows-Keeps (thief j) k (i.thieves j);
      conserved = OwnerStep-Conserved small ws xs i.shape i.owner st k i.conserved;
    }
