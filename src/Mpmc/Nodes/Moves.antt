-- ===== src/Mpmc/Nodes/Moves.antt =====
-- Every step keeps the chain, and what the handles and the threads know of it.
use linux_summer.Prelude.{
  ℕ, ◌+◌, ◌/◌, ◌≤◌, ◌<◌, ◌≡◌, ◌≢◌, inl, refl, sym, ap, subst, ◌∙◌, true, false, update, update-eq,
  update-ne, dec_lt, arith,
}
use linux_summer.Mpmc.Nodes.{
  node_size, Op, push, pop, Pc, unregistered, outside, walking, linking, System,
}
use linux_summer.Mpmc.Nodes.Chain.{index_of, Within, Walks, Knows, Inv}
use linux_summer.Mpmc.Nodes.Others.{Grows, Inv-Grows, handle_stays}
use linux_summer.Mpmc.Nodes.Growth.{Linked-id, Linked-new}

module _ (s : System) (node : ℕ → ℕ) (last : ℕ) (x : Inv s node last) (t : ℕ) where
  pub known : (p : Pc) → s.pc t ≡ p → Knows s.put_index s.pop_index node last s.id (s.spare t) p
  known p e = subst (Knows s.put_index s.pop_index node last s.id (s.spare t)) e (x.threads t)

  -- A step that leaves the chain and the handles.
  module _ (puts pops : ℕ) (q : Pc) (le_put : s.put_index ≤ puts) (le_pop : s.pop_index ≤ pops)
      (reg : s.pc t ≢ unregistered) where
    pub walk-Inv :
        Knows puts pops node last s.id (s.spare t) q
        → Inv (record s { put_index = puts; pop_index = pops; pc = update s.pc t q }) node last
    walk-Inv own =
        let s' = record s { put_index = puts; pop_index = pops; pc = update s.pc t q } in
        let k : Grows s node last s' node last t q = record {
          put_le = le_put;
          pop_le = le_pop;
          last_le = omega arith;
          same = λ k le. refl;
          spare = λ u ne. refl;
          ids = λ u ne nz. refl;
          handle = λ u ne. (refl, refl);
          moves = refl;
        } in
        Inv-Grows s node last s' node last t q x k x.linked own
          (handle_stays s node last s' node last t q x k reg refl refl) (λ e m. inl m)

  -- The walk starts at the node of the handle, whose number is its `id`.
  start_walk :
      (op : Op) (i p puts pops : ℕ)
      → i < index_of op puts pops
      → Within node last i p
      → Walks puts pops node last op i p (s.id p)
  start_walk op i p puts pops lt (k, le, e, within) =
      let d : s.id p ≡ k = ap s.id e ∙ x.linked.ids k le in
      (omega (arith, d, le), e ∙ ap node (sym d), omega (arith, d, within), lt)

  pub draw_put-Inv :
      s.pc t ≡ outside
      → Inv
          (record s {
            put_index = s.put_index + 1;
            pc = update s.pc t (walking push s.put_index (s.push_node t) (s.id (s.push_node t)));
          })
          node
          last
  draw_put-Inv e =
      let reg : s.pc t ≢ unregistered = λ z. cc (e, z) in
      walk-Inv (s.put_index + 1) s.pop_index _ (omega arith) (omega arith) reg (
        start_walk push s.put_index (s.push_node t) (s.put_index + 1) s.pop_index (omega arith)
          (x.handles t reg).0)

  pub draw_pop-Inv :
      s.pc t ≡ outside
      → Inv
          (record s {
            pop_index = s.pop_index + 1;
            pc = update s.pc t (walking pop s.pop_index (s.pop_node t) (s.id (s.pop_node t)));
          })
          node
          last
  draw_pop-Inv e =
      let reg : s.pc t ≢ unregistered = λ z. cc (e, z) in
      walk-Inv s.put_index (s.pop_index + 1) _ (omega arith) (omega arith) reg (
        start_walk pop s.pop_index (s.pop_node t) s.put_index (s.pop_index + 1) (omega arith)
          (x.handles t reg).1)

  -- From a node with a successor to the successor.
  pub next_node :
      (op : Op) (i curr j : ℕ)
      → Walks s.put_index s.pop_index node last op i curr j
      → j < i / node_size
      → s.next curr ≢ 0
      → Walks s.put_index s.pop_index node last op i (s.next curr) (j + 1)
  next_node op i curr j (a, b, c, d) lt nz = elim (dec_lt j last) [
    | yes below ↦ (omega (arith, below), ap s.next b ∙ x.linked.links j below, omega (arith, lt), d)
    | no ge ↦ absurd (nz (ap s.next (b ∙ ap node (omega (arith, a, ge))) ∙ x.linked.end))
  ]

  pub fill_spare-Inv :
      (op : Op) (i curr j : ℕ)
      → s.pc t ≡ walking op i curr j
      → j < i / node_size
      → s.spare t ≢ 0
      → Inv
          (record s {
            id = update s.id (s.spare t) (j + 1);
            pc = update s.pc t (linking op i curr j (s.spare t));
          })
          node
          last
  fill_spare-Inv op i curr j e lt nz =
      let q = linking op i curr j (s.spare t) in
      let s' = record s { id = update s.id (s.spare t) (j + 1); pc = update s.pc t q } in
      let k : Grows s node last s' node last t q = record {
        put_le = omega arith;
        pop_le = omega arith;
        last_le = omega arith;
        same = λ k le. refl;
        spare = λ u ne. refl;
        ids = λ u ne h.
            update-ne s.id (s.spare t) (s.spare u) (j + 1)
              (λ z. ne (x.linked.spares_apart t u nz z));
        handle = λ u ne. (refl, refl);
        moves = refl;
      } in
      Inv-Grows s node last s' node last t q x k
        (Linked-id s.next s.id s.allocated s.spare s.init_node node last t x.linked (j + 1) nz)
        (
          known (walking op i curr j) e,
          lt,
          refl,
          nz,
          update-eq s.id (s.spare t) (s.spare t) (j + 1) refl,
        )
        (handle_stays s node last s' node last t q x k (λ z. cc (e, z)) refl refl) (λ y m. inl m)

  -- A step that allocates the thread's spare node.
  module _ (a v pushed popped : ℕ) (q : Pc) (nz : a ≢ 0) (free : s.allocated a ≡ false) where
    abbrev pub with_spare : System
    with_spare = record s {
      allocated = update s.allocated a true;
      next = update s.next a 0;
      id = update s.id a v;
      spare = update s.spare t a;
      push_node = update s.push_node t pushed;
      pop_node = update s.pop_node t popped;
      pc = update s.pc t q;
    }

    pub spare-Inv :
        Knows s.put_index s.pop_index node last (update s.id a v) a q
        → Within node last s.put_index pushed × Within node last s.pop_index popped
        → Inv with_spare node last
    spare-Inv own (hp, hq) =
        Inv-Grows s node last with_spare node last t q x
          (record {
            put_le = omega arith;
            pop_le = omega arith;
            last_le = omega arith;
            same = λ k le. refl;
            spare = λ u ne. update-ne s.spare t u a ne;
            ids = λ u ne h.
                update-ne s.id a (s.spare u) v
                  (λ z. cc (free, x.linked.spare_allocated u h, ap s.allocated z));
            handle =
                λ u ne. (update-ne s.push_node t u pushed ne, update-ne s.pop_node t u popped ne);
            moves = refl;
          })
          (Linked-new s.next s.id s.allocated s.spare s.init_node node last t x.linked a v free)
          (subst (λ z. Knows s.put_index s.pop_index node last (update s.id a v) z q)
            (sym (update-eq s.spare t t a refl)) own)
          (
            subst (Within node last s.put_index) (sym (update-eq s.push_node t t pushed refl)) hp,
            subst (Within node last s.pop_index) (sym (update-eq s.pop_node t t popped refl)) hq,
          )
          (λ y m. inl m)
