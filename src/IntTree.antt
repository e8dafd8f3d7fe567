-- ===== src/IntTree.antt =====
-- hw1/treeint/treeint_st.c: a set of integers as an S-tree. A node of the heap has an integer besides
-- its links. `calloc` is a parameter: the address of a new node for a heap; `free` has no effect here.
pub mod Sets
pub mod Keys
pub mod Contract
pub mod Rows
pub mod Dump
pub mod Tests
use linux_summer.Prelude.{
  ℕ, zero, suc, Bool, true, false, ◌==◌, if◌then◌else◌, Option, none, some, ◌>>=◌, update, List, [],
  ◌∷◌, ◌++◌,
}
use mathlib.Core.Option
use linux_summer.Prelude.Int.{ℤ, pos, ◌-ℤ◌, to_int}
use linux_summer.STree.{Tree, st_find, st_insert}
use linux_summer.STree.Destroy.{st_destroy}
use linux_summer.STree.Remove.{st_remove}

-- `struct treeint_st`: the nodes and their integers
pub record Ints : Type 0 where
  pub tree : Tree
  pub value : ℕ → ℤ

-- The difference is an `int`. Where it does not fit, which C leaves undefined, it wraps around here.
unfoldable pub treeint_st_cmp : (ℕ → ℤ) → ℕ → ℤ → ℤ
unfolding to_int
treeint_st_cmp value n key = to_int (value n -ℤ key)

-- what `treeint_st_node_create` does to the links
pub node_create : (Tree → ℕ) → Tree → ℤ → Tree × ℕ
node_create calloc s key =
    let n = calloc s in
    (
      record s {
        hint = update s.hint n (pos 0);
        parent = update s.parent n 0;
        left = update s.left n 0;
        right = update s.right n 0;
      },
      n,
    )

-- no tree yet, and a heap without nodes
pub treeint_st_init : Ints
treeint_st_init = record {
  tree = record { root = 0; hint = λ a. pos 0; parent = λ a. 0; left = λ a. 0; right = λ a. 0 };
  value = λ a. pos 0;
}

-- the nodes that are freed, in their order
pub treeint_st_destroy : ℕ → Ints → Option (List ℕ)
treeint_st_destroy fuel t = st_destroy fuel t.tree

-- true for the result 0, false for -1
pub treeint_st_insert : (Tree → ℕ) → ℕ → Ints → ℤ → Option (Ints × Bool)
unfolding node_create
treeint_st_insert calloc fuel t a =
    Option.map
      (λ (o : Tree × Bool). (
        record { tree = o.0; value = if o.1 then update t.value (calloc t.tree) a else t.value },
        o.1,
      ))
      (st_insert (treeint_st_cmp t.value) (node_create calloc) fuel t.tree a)

-- 0 for NULL
pub treeint_st_find : ℕ → Ints → ℤ → Option ℕ
treeint_st_find fuel t a = st_find (treeint_st_cmp t.value) a fuel t.tree

pub treeint_st_remove : ℕ → Ints → ℤ → Option (Ints × Bool)
treeint_st_remove fuel t a =
    Option.map (λ (o : Tree × Bool × ℕ). (record { tree = o.0; value = t.value }, o.1))
      (st_remove (treeint_st_cmp t.value) fuel t.tree a)
