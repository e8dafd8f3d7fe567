-- ===== src/Mpmc/Nodes.antt =====
-- `mpmc_find_cell` and `mpmc_queue_register` of hw3/mpmc.c, as a step relation of any number of threads: the
-- chain of nodes, which grows by a compare-and-swap, and the spare node of each thread. A node is its
-- address, with 0 for NULL. A thread's own variables and its unpublished spare node are read and written
-- together with its next access to the chain; `id` does not change once a node is in the chain. Of
-- the registration only the spare node and the first nodes of a handle are here: the tables of handles, which
-- the reclamation of nodes reads, their N_HANDLES places, the barriers and the reclamation are left out. The
-- indices, `long` in the source, do not wrap: that would take 2 ^ 63 calls.
pub mod Chain
pub mod Others
pub mod Growth
pub mod Moves
pub mod Arrivals
pub mod SameCell
pub mod Tests
use Prim.Native.Nat.{bit_and}
use linux_summer.Prelude.{
  ℕ, zero, suc, ◌+◌, ◌-◌, ◌/◌, ◌≤◌, ◌<◌, ◌≡◌, ◌≢◌, ◌==◌, if◌then◌else◌, Bool, true, false, List, [],
  ◌∷◌, update,
}

-- `N`, which is 1 << 12
abbrev pub node_size : ℕ
node_size = 4096

abbrev pub n_bits : ℕ
n_bits = node_size - 1

-- the call for which a thread looks for a cell
pub data Op : Type 0 where
  push : Op
  pop : Op

pub data Pc : Type 0 where
  unregistered : Pc
  outside : Pc
  walking : (op : Op) (i curr j : ℕ) → Pc  -- before the test of the loop
  linking : (op : Op) (i curr j tmp : ℕ) → Pc  -- before the compare-and-swap
  found : (op : Op) (i curr offset : ℕ) → Pc  -- with the cell that the call returned

-- what a call with a ticket returned: a cell of a node
pub record Place : Type 0 where
  pub ticket : ℕ
  pub node : ℕ
  pub offset : ℕ

-- The indices of the queue, the nodes, and the handles. `located` only records what was returned.
pub record System : Type 0 where
  pub put_index : ℕ
  pub pop_index : ℕ
  pub init_node : ℕ
  pub next : ℕ → ℕ
  pub id : ℕ → ℕ
  pub allocated : ℕ → Bool
  pub spare : ℕ → ℕ
  pub push_node : ℕ → ℕ
  pub pop_node : ℕ → ℕ
  pub pc : ℕ → Pc
  pub located : List Place

-- the handle's node for the call, after the call has moved it
abbrev pub moved_node : Op → Op → (ℕ → ℕ) → ℕ → ℕ → ℕ → ℕ
moved_node push push node t curr = update node t curr
moved_node pop pop node t curr = update node t curr
moved_node push pop node t curr = node
moved_node pop push node t curr = node

-- thread `t` after `mpmc_queue_register`, with the new node `a`, whose memory is zero
abbrev pub registered : System → ℕ → ℕ → System
registered s t a = record s {
  allocated = update s.allocated a true;
  next = update s.next a 0;
  id = update s.id a 0;
  spare = update s.spare t a;
  push_node = update s.push_node t s.init_node;
  pop_node = update s.pop_node t s.init_node;
  pc = update s.pc t outside;
}

-- One access of thread `t`.
pub data Step (s : System) : System → Type 0 where
  register :
      (t a : ℕ) → s.pc t ≡ unregistered → a ≢ 0 → s.allocated a ≡ false → Step s (registered s t a)
  draw_put :
      (t : ℕ)
      → s.pc t ≡ outside
      → Step s (record s {
        put_index = s.put_index + 1;
        pc = update s.pc t (walking push s.put_index (s.push_node t) (s.id (s.push_node t)));
      })
  draw_pop :
      (t : ℕ)
      → s.pc t ≡ outside
      → Step s (record s {
        pop_index = s.pop_index + 1;
        pc = update s.pc t (walking pop s.pop_index (s.pop_node t) (s.id (s.pop_node t)));
      })
  go_on :
      (t i curr j : ℕ) (op : Op)
      → s.pc t ≡ walking op i curr j
      → j < i / node_size
      → s.next curr ≢ 0
      → Step s (record s { pc = update s.pc t (walking op i (s.next curr) (j + 1)) })
  fill_spare :
      (t i curr j : ℕ) (op : Op)
      → s.pc t ≡ walking op i curr j
      → j < i / node_size
      → s.next curr ≡ 0
      → s.spare t ≢ 0
      → Step s (record s {
        id = update s.id (s.spare t) (j + 1);
        pc = update s.pc t (linking op i curr j (s.spare t));
      })
  fill_new :
      (t i curr j a : ℕ) (op : Op)
      → s.pc t ≡ walking op i curr j
      → j < i / node_size
      → s.next curr ≡ 0
      → s.spare t ≡ 0
      → a ≢ 0
      → s.allocated a ≡ false
      → Step s (record s {
        allocated = update s.allocated a true;
        next = update s.next a 0;
        id = update s.id a (j + 1);
        spare = update s.spare t a;
        pc = update s.pc t (linking op i curr j a);
      })
  link :
      (t i curr j tmp : ℕ) (op : Op)
      → s.pc t ≡ linking op i curr j tmp
      → s.next curr ≡ 0
      → Step s (record s {
        next = update s.next curr tmp;
        spare = update s.spare t 0;
        pc = update s.pc t (walking op i tmp (j + 1));
      })
  link_lost :
      (t i curr j tmp : ℕ) (op : Op)
      → s.pc t ≡ linking op i curr j tmp
      → s.next curr ≢ 0
      → Step s (record s { pc = update s.pc t (walking op i (s.next curr) (j + 1)) })
  arrive :
      (t i curr j : ℕ) (op : Op)
      → s.pc t ≡ walking op i curr j
      → i / node_size ≤ j
      → Step s (record s {
        push_node = moved_node op push s.push_node t curr;
        pop_node = moved_node op pop s.pop_node t curr;
        pc = update s.pc t (found op i curr (bit_and i n_bits));
        located = record { ticket = i; node = curr; offset = bit_and i n_bits } ∷ s.located;
      })
  leave :
      (t i curr offset : ℕ) (op : Op)
      → s.pc t ≡ found op i curr offset
      → Step s (record s { pc = update s.pc t outside })

-- after `mpmc_init_queue`, which has allocated the first node, at `a`
abbrev pub start : ℕ → System
start a = record {
  put_index = 0;
  pop_index = 0;
  init_node = a;
  next = λ k. 0;
  id = λ k. 0;
  allocated = λ k. k == a;
  spare = λ t. 0;
  push_node = λ t. 0;
  pop_node = λ t. 0;
  pc = λ t. unregistered;
  located = [];
}

pub data Reach (a : ℕ) : System → Type 0 where
  here : Reach a (start a)
  next : {s t : System} → Reach a s → Step s t → Reach a t
