-- ===== src/Mpmc/Nodes/Arrivals.antt =====
-- The steps that link a node, allocate one, or end the walk.
use Prim.Native.Nat.{bit_and}
use mathlib.Core.List.{Memᴰ}
use linux_summer.Prelude.{
  ℕ, ◌+◌, ◌/◌, ◌≤◌, ◌<◌, ◌≡◌, ◌≢◌, inl, inr, refl, sym, ap, subst, ◌∙◌, true, false, ◌∷◌, update,
  update-eq, update-ne, update_same, arith,
}
use linux_summer.Mpmc.Nodes.{
  node_size, n_bits, Op, push, pop, outside, walking, linking, found, Place, System, moved_node,
}
use linux_summer.Mpmc.Nodes.Chain.{Linked, Within, Right, Inv}
use linux_summer.Mpmc.Nodes.Others.{Grows, Inv-Grows, handle_stays}
use linux_summer.Mpmc.Nodes.Growth.{Linked-link, is_last}
use linux_summer.Mpmc.Nodes.Moves.{known, with_spare, spare-Inv}

module _ (s : System) (node : ℕ → ℕ) (last : ℕ) (x : Inv s node last) (t : ℕ) where
  pub link-Inv :
      (op : Op) (i curr j tmp : ℕ)
      → s.pc t ≡ linking op i curr j tmp
      → s.next curr ≡ 0
      → Inv
          (record s {
            next = update s.next curr tmp;
            spare = update s.spare t 0;
            pc = update s.pc t (walking op i tmp (j + 1));
          })
          (update node (last + 1) (s.spare t))
          (last + 1)
  link-Inv op i curr j tmp e z =
      let (w, lt, same, nz, d) = known s node last x t (linking op i curr j tmp) e in
      let (a, b, c, issued) = w in
      let j_last : j ≡ last =
        is_last s.next s.id s.allocated s.spare s.init_node node last t x.linked j a
          (ap s.next (sym b) ∙ z) in
      let d' : s.id (s.spare t) ≡ last + 1 = d ∙ ap (λ k. k + 1) j_last in
      let q = walking op i tmp (j + 1) in
      let s' = record s {
        next = update s.next curr tmp;
        spare = update s.spare t 0;
        pc = update s.pc t q;
      } in
      let node' = update node (last + 1) (s.spare t) in
      let k : Grows s node last s' node' (last + 1) t q = record {
        put_le = omega arith;
        pop_le = omega arith;
        last_le = omega arith;
        same = λ k le. update-ne node (last + 1) k (s.spare t) (λ r. omega (arith, r, le));
        spare = λ u ne. update-ne s.spare t u 0 ne;
        ids = λ u ne h. refl;
        handle = λ u ne. (refl, refl);
        moves = refl;
      } in
      Inv-Grows s node last s' node' (last + 1) t q x k
        (subst
          (λ (f : ℕ → ℕ).
            Linked f s.id s.allocated (update s.spare t 0) s.init_node node' (last + 1))
          (chain_step curr (b ∙ ap node j_last) tmp same)
          (Linked-link s.next s.id s.allocated s.spare s.init_node node last t x.linked nz d'))
        (
          omega (arith, j_last),
          same ∙ sym (update-eq node (last + 1) (j + 1) (s.spare t) (omega (arith, j_last))),
          omega (arith, lt),
          issued,
        )
        (handle_stays s node last s' node' (last + 1) t q x k (λ r. cc (e, r)) refl refl)
        (λ y m. inl m)
    where
      chain_step :
          (curr : ℕ)
          → curr ≡ node last
          → (tmp : ℕ) → tmp ≡ s.spare t
          → update s.next (node last) (s.spare t) ≡ update s.next curr tmp
      chain_step curr p tmp q =
          ap (λ a. update s.next a (s.spare t)) (sym p) ∙ ap (update s.next curr) (sym q)

  -- The node found by a call, as the handle has it then.
  pub placed-Inv :
      (op : Op) (i curr j : ℕ) (f g : ℕ → ℕ)
      → s.pc t ≡ walking op i curr j
      → i / node_size ≤ j
      → ((u : ℕ) → t ≢ u → (f u ≡ s.push_node u) × (g u ≡ s.pop_node u))
      → Within node last s.put_index (f t) × Within node last s.pop_index (g t)
      → Inv
          (record s {
            push_node = f;
            pop_node = g;
            pc = update s.pc t (found op i curr (bit_and i n_bits));
            located = record { ticket = i; node = curr; offset = bit_and i n_bits } ∷ s.located;
          })
          node
          last
  placed-Inv op i curr j f g e le others h =
      let (a, b, c, issued) = known s node last x t (walking op i curr j) e in
      let at : j ≡ i / node_size = omega (arith, le, c) in
      let q = found op i curr (bit_and i n_bits) in
      let place : Place = record { ticket = i; node = curr; offset = bit_and i n_bits } in
      let s' = record s {
        push_node = f;
        pop_node = g;
        pc = update s.pc t q;
        located = place ∷ s.located;
      } in
      let right : Right node last place = record {
        right_node = b ∙ ap node at;
        in_chain = omega (arith, a, at);
        right_offset = refl;
      } in
      Inv-Grows s node last s' node last t q x
        (record {
          put_le = omega arith;
          pop_le = omega arith;
          last_le = omega arith;
          same = λ k le. refl;
          spare = λ u ne. refl;
          ids = λ u ne nz. refl;
          handle = others;
          moves = refl;
        })
        x.linked tt h
        (λ y m. elim m [
          | Memᴰ.head r ↦ inr (subst (Right node last) (sym r) right)
          | Memᴰ.tail old ↦ inl old
        ])

  pub arrive-Inv :
      (op : Op) (i curr j : ℕ)
      → s.pc t ≡ walking op i curr j
      → i / node_size ≤ j
      → Inv
          (record s {
            push_node = moved_node op push s.push_node t curr;
            pop_node = moved_node op pop s.pop_node t curr;
            pc = update s.pc t (found op i curr (bit_and i n_bits));
            located = record { ticket = i; node = curr; offset = bit_and i n_bits } ∷ s.located;
          })
          node
          last
  arrive-Inv push i curr j e le =
      let (a, b, c, issued) = known s node last x t (walking push i curr j) e in
      let (hp, hq) = x.handles t (λ z. cc (e, z)) in
      placed-Inv push i curr j (update s.push_node t curr) s.pop_node e le
        (λ u ne. (update-ne s.push_node t u curr ne, refl))
        ((j, a, update-eq s.push_node t t curr refl ∙ b, omega (arith, c, issued)), hq)
  arrive-Inv pop i curr j e le =
      let (a, b, c, issued) = known s node last x t (walking pop i curr j) e in
      let (hp, hq) = x.handles t (λ z. cc (e, z)) in
      placed-Inv pop i curr j s.push_node (update s.pop_node t curr) e le
        (λ u ne. (refl, update-ne s.pop_node t u curr ne))
        (hp, (j, a, update-eq s.pop_node t t curr refl ∙ b, omega (arith, c, issued)))

  pub fill_new-Inv :
      (op : Op) (i curr j a : ℕ)
      → s.pc t ≡ walking op i curr j
      → j < i / node_size
      → a ≢ 0
      → s.allocated a ≡ false
      → Inv
          (record s {
            allocated = update s.allocated a true;
            next = update s.next a 0;
            id = update s.id a (j + 1);
            spare = update s.spare t a;
            pc = update s.pc t (linking op i curr j a);
          })
          node
          last
  fill_new-Inv op i curr j a e lt nz free =
      let q = linking op i curr j a in
      let y : Inv (with_spare s node last x t a (j + 1) (s.push_node t) (s.pop_node t) q nz free)
          node last =
        spare-Inv s node last x t a (j + 1) (s.push_node t) (s.pop_node t) q nz free
          (
            known s node last x t (walking op i curr j) e,
            lt,
            refl,
            nz,
            update-eq s.id a a (j + 1) refl,
          )
          (x.handles t (λ z. cc (e, z))) in
      subst
        (λ (f : (ℕ → ℕ) × (ℕ → ℕ)).
          Inv
            (record s {
              allocated = update s.allocated a true;
              next = update s.next a 0;
              id = update s.id a (j + 1);
              spare = update s.spare t a;
              push_node = f.0;
              pop_node = f.1;
              pc = update s.pc t q;
            })
            node last)
        (λ i. (
          sym (update_same s.push_node t (s.push_node t) refl) i,
          sym (update_same s.pop_node t (s.pop_node t) refl) i,
        ))
        y

  pub register-Inv :
      (a : ℕ) (nz : a ≢ 0) (free : s.allocated a ≡ false)
      → Inv (with_spare s node last x t a 0 s.init_node s.init_node outside nz free) node last
  register-Inv a nz free =
      let first : (i : ℕ) → Within node last i s.init_node =
        λ i. (0, omega arith, sym x.linked.first, omega arith) in
      spare-Inv s node last x t a 0 s.init_node s.init_node outside nz free tt
        (first s.put_index, first s.pop_index)
