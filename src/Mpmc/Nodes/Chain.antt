-- ===== src/Mpmc/Nodes/Chain.antt =====
-- The chain of nodes, and what holds of the handles and the threads.
use Prim.Native.Nat.{bit_and}
use mathlib.Core.List.{Memᴰ}
use linux_summer.Prelude.{ℕ, ◌+◌, ◌/◌, ◌≤◌, ◌<◌, ◌≡◌, ◌≢◌, Bool, true}
use linux_summer.Mpmc.Nodes.{
  node_size, n_bits, Op, push, pop, Pc, unregistered, outside, walking, linking, found, Place,
  System,
}

-- The nodes `node 0` to `node last` are linked in that order, and the spare ones are not among them.
pub record Linked (next id : ℕ → ℕ) (allocated : ℕ → Bool) (spare : ℕ → ℕ) (init_node : ℕ)
    (node : ℕ → ℕ) (last : ℕ) : Type 0 where
  pub first : node 0 ≡ init_node
  pub not_null : (k : ℕ) → k ≤ last → node k ≢ 0
  pub is_allocated : (k : ℕ) → k ≤ last → allocated (node k) ≡ true
  pub ids : (k : ℕ) → k ≤ last → id (node k) ≡ k
  pub links : (k : ℕ) → k < last → next (node k) ≡ node (k + 1)
  pub end : next (node last) ≡ 0
  pub spare_allocated : (t : ℕ) → spare t ≢ 0 → allocated (spare t) ≡ true
  pub spare_next : (t : ℕ) → spare t ≢ 0 → next (spare t) ≡ 0
  pub spare_apart : (t k : ℕ) → spare t ≢ 0 → k ≤ last → node k ≢ spare t
  pub spares_apart : (t u : ℕ) → spare t ≢ 0 → spare t ≡ spare u → t ≡ u

abbrev pub index_of : Op → ℕ → ℕ → ℕ
index_of push puts pops = puts
index_of pop puts pops = pops

-- A node of the chain that is not beyond the node of ticket `i`.
abbrev pub Within : (ℕ → ℕ) → ℕ → ℕ → ℕ → Type 0
Within node last i p = (k : ℕ) × (k ≤ last) × (p ≡ node k) × (k ≤ i / node_size)

abbrev pub Walks : ℕ → ℕ → (ℕ → ℕ) → ℕ → Op → ℕ → ℕ → ℕ → Type 0
Walks puts pops node last op i curr j =
    (j ≤ last) × (curr ≡ node j) × (j ≤ i / node_size) × (i < index_of op puts pops)

-- what a thread with the spare node `tmp` knows at its place
abbrev pub Knows : ℕ → ℕ → (ℕ → ℕ) → ℕ → (ℕ → ℕ) → ℕ → Pc → Type 0
Knows puts pops node last id tmp unregistered = tmp ≡ 0
Knows puts pops node last id tmp outside = Unit {0}
Knows puts pops node last id tmp (walking op i curr j) = Walks puts pops node last op i curr j
Knows puts pops node last id tmp (linking op i curr j n) =
    Walks puts pops node last op i curr j
    × (j < i / node_size)
    × (n ≡ tmp)
    × (tmp ≢ 0)
    × (id tmp ≡ j + 1)
Knows puts pops node last id tmp (found op i curr offset) = Unit {0}

abbrev pub Handle : ℕ → ℕ → (ℕ → ℕ) → ℕ → Pc → ℕ → ℕ → Type 0
Handle puts pops node last pc p q =
    pc ≢ unregistered → Within node last puts p × Within node last pops q

-- The cell is that of the ticket.
pub record Right (node : ℕ → ℕ) (last : ℕ) (x : Place) : Type 0 where
  pub right_node : x.node ≡ node (x.ticket / node_size)
  pub in_chain : x.ticket / node_size ≤ last
  pub right_offset : x.offset ≡ bit_and x.ticket n_bits

pub record Inv (s : System) (node : ℕ → ℕ) (last : ℕ) : Type 0 where
  pub linked : Linked s.next s.id s.allocated s.spare s.init_node node last
  pub handles :
      (t : ℕ) → Handle s.put_index s.pop_index node last (s.pc t) (s.push_node t) (s.pop_node t)
  pub threads : (t : ℕ) → Knows s.put_index s.pop_index node last s.id (s.spare t) (s.pc t)
  pub cells : (x : Place) → Memᴰ x s.located → Right node last x
