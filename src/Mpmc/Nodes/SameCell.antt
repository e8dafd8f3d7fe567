-- ===== src/Mpmc/Nodes/SameCell.antt =====
-- The calls with the same ticket get the same cell, and others another one.
use Prim.Native.Nat.{bit_and}
use mathlib.Core.List.{Memᴰ}
use linux_summer.Prelude.{ℕ, ◌+◌, ◌/◌, ◌≡◌, ◌≢◌, refl, sym, ap, ◌∙◌, arith}
use linux_summer.Prelude.Bits.{bit_and_low-injective}
use linux_summer.Mpmc.Nodes.{
  node_size, n_bits, outside, walking, linking, Place, System, Step, register, draw_put, draw_pop,
  go_on, fill_spare, fill_new, link, link_lost, arrive, leave, start, Reach, here, next,
}
use linux_summer.Mpmc.Nodes.Chain.{Inv}
use linux_summer.Mpmc.Nodes.Moves.{
  known, walk-Inv, draw_put-Inv, draw_pop-Inv, next_node, fill_spare-Inv,
}
use linux_summer.Mpmc.Nodes.Arrivals.{link-Inv, arrive-Inv, fill_new-Inv, register-Inv}

abbrev Holds : System → Type 0
Holds s = (node : ℕ → ℕ) × (last : ℕ) × Inv s node last

Step-Holds : (s s' : System) → Holds s → Step s s' → Holds s'
Step-Holds s _ (node, last, x) (register t a e nz free) =
    (node, last, register-Inv s node last x t a nz free)
Step-Holds s _ (node, last, x) (draw_put t e) = (node, last, draw_put-Inv s node last x t e)
Step-Holds s _ (node, last, x) (draw_pop t e) = (node, last, draw_pop-Inv s node last x t e)
Step-Holds s _ (node, last, x) (go_on t i curr j op e lt nz) = (
  node,
  last,
  walk-Inv s node last x t s.put_index s.pop_index (walking op i (s.next curr) (j + 1))
      (omega arith) (omega arith) (λ z. cc (e, z))
      (next_node s node last x t op i curr j (known s node last x t (walking op i curr j) e) lt nz),
)
Step-Holds s _ (node, last, x) (fill_spare t i curr j op e lt z nz) =
    (node, last, fill_spare-Inv s node last x t op i curr j e lt nz)
Step-Holds s _ (node, last, x) (fill_new t i curr j a op e lt z none_ nz free) =
    (node, last, fill_new-Inv s node last x t op i curr j a e lt nz free)
Step-Holds s _ (node, last, x) (link t i curr j tmp op e z) =
    (_, _, link-Inv s node last x t op i curr j tmp e z)
Step-Holds s _ (node, last, x) (link_lost t i curr j tmp op e nz) =
    let (w, lt, same, spare, numbered) = known s node last x t (linking op i curr j tmp) e in
    (
      node,
      last,
      walk-Inv s node last x t s.put_index s.pop_index (walking op i (s.next curr) (j + 1))
          (omega arith) (omega arith) (λ z. cc (e, z))
          (next_node s node last x t op i curr j w lt nz),
    )
Step-Holds s _ (node, last, x) (arrive t i curr j op e le) =
    (node, last, arrive-Inv s node last x t op i curr j e le)
Step-Holds s _ (node, last, x) (leave t i curr offset op e) = (
  node,
  last,
  walk-Inv s node last x t s.put_index s.pop_index outside (omega arith) (omega arith)
      (λ z. cc (e, z)) tt,
)

start-Holds : (a : ℕ) → a ≢ 0 → Holds (start a)
start-Holds a nz = (
  λ k. a,
  0,
  record {
    linked = record {
      first = refl;
      not_null = λ k le. nz;
      is_allocated = λ k le. ground arith;
      ids = λ k le. omega (arith, le);
      links = λ k lt. absurd (omega (arith, lt));
      end = refl;
      spare_allocated = λ t z. absurd (z refl);
      spare_next = λ t z. absurd (z refl);
      spare_apart = λ t k z. absurd (z refl);
      spares_apart = λ t u z. absurd (z refl);
    };
    handles = λ t reg. absurd (reg refl);
    threads = λ t. refl;
    cells = λ y m. elim m [ ];
  },
)

Reach-Holds : (a : ℕ) → a ≢ 0 → (s : System) → Reach a s → Holds s
Reach-Holds a nz _ here = start-Holds a nz
Reach-Holds a nz s (next {s = r} p q) = Step-Holds r s (Reach-Holds a nz r p) q

-- `mpmc_find_cell`, from a queue whose first node is allocated: of what two calls have returned in a
-- reachable state, the cells are the same just if the tickets are.
pub same_cell :
    (a : ℕ)
    → a ≢ 0
    → (s : System) → Reach a s
    → (x y : Place) → Memᴰ x s.located
    → Memᴰ y s.located
    → (x.ticket ≡ y.ticket → (x.node ≡ y.node) × (x.offset ≡ y.offset))
      × (x.node ≡ y.node → x.offset ≡ y.offset → x.ticket ≡ y.ticket)
same_cell a nz s r x y mx my =
    let (node, last, inv) = Reach-Holds a nz s r in
    let p = inv.cells x mx in
    let q = inv.cells y my in
    (
      λ e. (
        p.right_node ∙ ap (λ i. node (i / node_size)) e ∙ sym q.right_node,
        p.right_offset ∙ ap (λ i. bit_and i n_bits) e ∙ sym q.right_offset,
      ),
      λ e f.
          let same_node : x.ticket / node_size ≡ y.ticket / node_size =
            sym (inv.linked.ids (x.ticket / node_size) p.in_chain)
            ∙ ap s.id (sym p.right_node ∙ e ∙ q.right_node)
            ∙ inv.linked.ids (y.ticket / node_size) q.in_chain in
          let rest : bit_and x.ticket n_bits ≡ bit_and y.ticket n_bits =
            sym p.right_offset ∙ f ∙ q.right_offset in
          bit_and_low-injective 12 x.ticket y.ticket same_node rest,
    )
