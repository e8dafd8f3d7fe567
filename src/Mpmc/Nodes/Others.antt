-- ===== src/Mpmc/Nodes/Others.antt =====
-- What holds of the threads stays when the chain and the indices grow.
use mathlib.Core.List.{Memᴰ}
use linux_summer.Prelude.{
  ℕ, ◌/◌, ◌≤◌, ◌≡◌, ◌≢◌, ◌⊎◌, inl, inr, refl, sym, ap, subst, ◌∙◌, update, update-eq, update-ne,
  ℕ_discrete, arith,
}
use linux_summer.Mpmc.Nodes.{
  node_size, Op, push, pop, Pc, unregistered, outside, walking, linking, found, Place, System,
}
use linux_summer.Mpmc.Nodes.Chain.{Linked, Within, Walks, Knows, Right, Inv}

-- What a step of thread `t` to the place `q` leaves to the others.
pub record Grows (s : System) (node : ℕ → ℕ) (last : ℕ) (s' : System) (node' : ℕ → ℕ) (last' t : ℕ)
    (q : Pc) : Type 0 where
  pub put_le : s.put_index ≤ s'.put_index
  pub pop_le : s.pop_index ≤ s'.pop_index
  pub last_le : last ≤ last'
  pub same : (k : ℕ) → k ≤ last → node' k ≡ node k
  pub spare : (u : ℕ) → t ≢ u → s'.spare u ≡ s.spare u
  pub ids : (u : ℕ) → t ≢ u → s.spare u ≢ 0 → s'.id (s.spare u) ≡ s.id (s.spare u)
  pub handle : (u : ℕ) → t ≢ u → (s'.push_node u ≡ s.push_node u) × (s'.pop_node u ≡ s.pop_node u)
  pub moves : s'.pc ≡ update s.pc t q

module _ (s : System) (node : ℕ → ℕ) (last : ℕ) (s' : System) (node' : ℕ → ℕ) (last' t : ℕ) (q : Pc)
    (x : Inv s node last) (k : Grows s node last s' node' last' t q) where
  Walks-Grows :
      (op : Op) (i curr j : ℕ)
      → Walks s.put_index s.pop_index node last op i curr j
      → Walks s'.put_index s'.pop_index node' last' op i curr j
  Walks-Grows push i curr j (a, b, c, d) =
      (omega (arith, k.last_le), b ∙ sym (k.same j a), c, omega (arith, k.put_le))
  Walks-Grows pop i curr j (a, b, c, d) =
      (omega (arith, k.last_le), b ∙ sym (k.same j a), c, omega (arith, k.pop_le))

  Within-Grows : (i i' p : ℕ) → i ≤ i' → Within node last i p → Within node' last' i' p
  Within-Grows i i' p le (j, a, b, c) =
      (j, omega (arith, k.last_le), b ∙ sym (k.same j a), omega (arith, c, le))

  pub Right-Grows : (e : Place) → Right node last e → Right node' last' e
  Right-Grows e r = record {
    right_node = r.right_node ∙ sym (k.same (e.ticket / node_size) r.in_chain);
    in_chain = omega (arith, r.in_chain, k.last_le);
    right_offset = r.right_offset;
  }

  Knows-Grows :
      (u : ℕ) (p : Pc)
      → t ≢ u
      → Knows s.put_index s.pop_index node last s.id (s.spare u) p
      → Knows s'.put_index s'.pop_index node' last' s'.id (s'.spare u) p
  Knows-Grows u unregistered ne h = k.spare u ne ∙ h
  Knows-Grows u outside ne h = tt
  Knows-Grows u (walking op i curr j) ne h = Walks-Grows op i curr j h
  Knows-Grows u (linking op i curr j n) ne (w, lt, e, nz, d) = (
    Walks-Grows op i curr j w,
    lt,
    e ∙ sym (k.spare u ne),
    (λ z. nz (sym (k.spare u ne) ∙ z)),
    ap s'.id (k.spare u ne) ∙ k.ids u ne nz ∙ d,
  )
  Knows-Grows u (found op i curr offset) ne h = tt

  -- What the mover shows for itself, and what it has returned.
  pub Inv-Grows :
      Linked s'.next s'.id s'.allocated s'.spare s'.init_node node' last'
      → Knows s'.put_index s'.pop_index node' last' s'.id (s'.spare t) q
      → Within node' last' s'.put_index (s'.push_node t)
        × Within node' last' s'.pop_index (s'.pop_node t)
      → ((e : Place) → Memᴰ e s'.located → Memᴰ e s.located ⊎ Right node' last' e)
      → Inv s' node' last'
  Inv-Grows linked own handle located = record {
    linked = linked;
    handles = λ u. elim (ℕ_discrete t u) [
      | yes e ↦ (λ _.
          subst
            (λ z.
              Within node' last' s'.put_index (s'.push_node z)
              × Within node' last' s'.pop_index (s'.pop_node z))
            e handle)
      | no ne ↦ (λ reg.
          let h = x.handles u (λ z. reg (at_other u ne ∙ z)) in
          (
            subst (Within node' last' s'.put_index) (sym (k.handle u ne).0)
                (Within-Grows s.put_index s'.put_index (s.push_node u) k.put_le h.0),
            subst (Within node' last' s'.pop_index) (sym (k.handle u ne).1)
                (Within-Grows s.pop_index s'.pop_index (s.pop_node u) k.pop_le h.1),
          ))
    ];
    threads = λ u. elim (ℕ_discrete t u) [
      | yes e ↦
          subst (λ z. Knows s'.put_index s'.pop_index node' last' s'.id (s'.spare z) (s'.pc z)) e
            (subst (Knows s'.put_index s'.pop_index node' last' s'.id (s'.spare t)) (sym at_mover)
              own)
      | no ne ↦
          subst (Knows s'.put_index s'.pop_index node' last' s'.id (s'.spare u))
            (sym (at_other u ne)) (Knows-Grows u (s.pc u) ne (x.threads u))
    ];
    cells = λ e mem. elim (located e mem) [ inl old ↦ Right-Grows e (x.cells e old) | inr r ↦ r ];
  }
    where
      at_mover : s'.pc t ≡ q
      at_mover = ap (λ (f : ℕ → Pc). f t) k.moves ∙ update-eq s.pc t t q refl

      at_other : (u : ℕ) → t ≢ u → s'.pc u ≡ s.pc u
      at_other u ne = ap (λ (f : ℕ → Pc). f u) k.moves ∙ update-ne s.pc t u q ne

  -- The handle of a mover that does not touch its handle.
  pub handle_stays :
      s.pc t ≢ unregistered
      → s'.push_node t ≡ s.push_node t
      → s'.pop_node t ≡ s.pop_node t
      → Within node' last' s'.put_index (s'.push_node t)
        × Within node' last' s'.pop_index (s'.pop_node t)
  handle_stays reg e f =
      let h = x.handles t reg in
      (
        subst (Within node' last' s'.put_index) (sym e)
            (Within-Grows s.put_index s'.put_index (s.push_node t) k.put_le h.0),
        subst (Within node' last' s'.pop_index) (sym f)
            (Within-Grows s.pop_index s'.pop_index (s.pop_node t) k.pop_le h.1),
      )
