-- ===== src/IntTree/Contract.antt =====
-- The tree as a set of integers: what each operation does to the ascending list of them.
use linux_summer.Prelude.{
  ℕ, ◌+◌, ◌<◌, ◌^◌, ◌≡◌, ◌≢◌, refl, sym, ap, subst, ◌∙◌, inl, inr, ◌==◌, if◌then◌else◌, Bool, not,
  true, false, Bool-cases, some, List, [], map, count, length, update, arith,
}
use mathlib.Core.Option
use linux_summer.Prelude.Int.{ℤ}
use linux_summer.STree.{Tree}
use linux_summer.STree.Shape.{tall, leaf, IsTree, HintsTo}
use linux_summer.STree.Search.{seek, place, Rising}
use linux_summer.STree.Attach.{Creates}
use linux_summer.STree.Contract.{st_find-seek, st_insert-present, st_insert-place, null_free}
use linux_summer.STree.Update.{HintsTo-mono}
use linux_summer.STree.Remove.Erase.{erase}
use linux_summer.STree.Remove.Contract.{st_remove-absent, st_remove-erase}
use linux_summer.IntTree.{
  Ints, treeint_st_cmp, node_create, treeint_st_init, treeint_st_insert, treeint_st_find,
  treeint_st_remove,
}
use linux_summer.IntTree.Sets.{
  has, with_key, without, Ascending, AllSmall, Small, without-absent, AllSmall-with_key,
  AllSmall-without, Ascending-with_key, Ascending-without,
}
use linux_summer.IntTree.Keys.{
  Ascending-Rising, seek-has, seek-value, map-erase, map-place, length-map,
}

-- The tree holds the integers `ks`, in ascending order, and no hint is above `m`.
pub record Holds (t : Ints) (ks : List ℤ) (m : ℕ) : Type 0 where
  pub nodes : List ℕ
  pub tree : IsTree t.tree nodes
  pub values : map t.value nodes ≡ ks
  pub small : AllSmall ks
  pub ascending : Ascending ks
  pub hints : HintsTo t.tree m

-- `calloc` returns a new object
abbrev pub Fresh : (Tree → ℕ) → Tree → List ℕ → Type 0
Fresh calloc s xs = (calloc s ≢ 0) × (count (calloc s) xs ≡ 0)

node_create-Creates :
    (calloc : Tree → ℕ) (s : Tree) (a : ℤ) (xs : List ℕ)
    → Fresh calloc s xs
    → Creates s (node_create calloc s a).0 (calloc s) xs
unfolding node_create
node_create-Creates calloc s a xs (nz, new) = record {
  nonzero = nz;
  unused = new;
  zeroed = (ground arith, ground arith, ground arith, ground arith);
  same = λ k ne. record { parent = ground arith; left = ground arith; right = ground arith };
  hint = λ k ne. ground arith;
  root = refl;
}

-- `treeint_st_init` returns the empty set.
pub treeint_st_init-Holds : Holds treeint_st_init [] 0
unfolding treeint_st_init
treeint_st_init-Holds = record {
  nodes = [];
  tree = record { shape = leaf; links = refl; distinct = λ a. omega arith; order = refl };
  values = refl;
  small = tt;
  ascending = tt;
  hints = λ a. (0, refl, omega arith);
}

module _ (t : Ints) (ks : List ℤ) (m : ℕ) (h : Holds t ks m) (a : ℤ) (a_small : Small a) where
  abbrev v : ℕ → ℤ
  v n = treeint_st_cmp t.value n a

  nodes_small : AllSmall (map t.value h.nodes)
  nodes_small = subst AllSmall (sym h.values) h.small

  nodes-Rising : Rising v h.nodes
  nodes-Rising =
      Ascending-Rising t.value a a_small h.nodes nodes_small
        (subst Ascending (sym h.values) h.ascending)

  nodes_length : length h.nodes ≡ length ks
  nodes_length = sym (length-map t.value h.nodes) ∙ ap length h.values

  found : (seek v h.nodes == 0) ≡ (if has a ks then false else true)
  found =
      seek-has t.value a a_small h.nodes nodes_small (null_free t.tree h.nodes h.tree)
      ∙ ap (λ z. if has a z then false else true) h.values

  Holds-mono : (k : ℕ) → m < k → Holds t ks k
  Holds-mono k le = record {
    nodes = h.nodes;
    tree = h.tree;
    values = h.values;
    small = h.small;
    ascending = h.ascending;
    hints = HintsTo-mono t.tree m k (omega arith) h.hints;
  }

  insert_present :
      (calloc : Tree → ℕ) (fuel : ℕ)
      → has a ks ≡ true
      → length ks + 1 < fuel
      → treeint_st_insert calloc fuel t a ≡ some (t, false)
  unfolding treeint_st_insert
  insert_present calloc fuel e enough =
      ap
        (Option.map (λ (o : Tree × Bool). (
          record { tree = o.0; value = if o.1 then update t.value (calloc t.tree) a else t.value },
          o.1,
        )))
        (st_insert-present (treeint_st_cmp t.value) (node_create calloc) fuel t.tree a h.nodes
          h.tree nodes-Rising (ground (arith, found, e)) (omega (arith, nodes_length)))

  insert_absent :
      (calloc : Tree → ℕ) (fuel : ℕ)
      → has a ks ≡ false
      → Fresh calloc t.tree h.nodes
      → length ks + 1 < fuel
      → m + tall h.tree.shape + 1 < 2 ^ 15
      → (t' : Ints) × (treeint_st_insert calloc fuel t a ≡ some (t', true))
        × Holds t' (with_key a ks) (m + tall h.tree.shape + 1)
  unfolding treeint_st_insert node_create
  insert_absent calloc fuel e new enough small =
      let n = calloc t.tree in
      let u =
        st_insert-place (treeint_st_cmp t.value) (node_create calloc) fuel t.tree a h.nodes m h.tree
          h.hints nodes-Rising (ground (arith, found, e))
          (node_create-Creates calloc t.tree a h.nodes new) (omega (arith, nodes_length))
          (omega (arith, nodes_length)) in
      (
        record { tree = u.after; value = update t.value n a },
        ap
            (Option.map (λ (o : Tree × Bool).
              (record { tree = o.0; value = if o.1 then update t.value n a else t.value }, o.1)))
            u.run,
        record {
          nodes = place v n h.nodes;
          tree = u.tree;
          values =
              map-place t.value a a_small n h.nodes nodes_small new.1 ∙ ap (with_key a) h.values;
          small = AllSmall-with_key a ks a_small h.small;
          ascending = Ascending-with_key a ks e h.ascending;
          hints =
              HintsTo-mono u.after (m + tall h.tree.shape + 1) (m + tall h.tree.shape + 1)
                (omega arith) u.hints;
        },
      )

  -- `treeint_st_insert` returns 0 if the integer was not in the set, and -1 otherwise, and it is in
  -- the set then and the others as before, for integers below 2 ^ 30 in absolute value, if no hint is
  -- above `m` before and `m` plus the height of the tree plus 1 is below 2 ^ 15; no hint is above this sum
  -- then.
  pub treeint_st_insert-Holds :
      (calloc : Tree → ℕ) (fuel : ℕ)
      → Fresh calloc t.tree h.nodes
      → length ks + 1 < fuel
      → m + tall h.tree.shape + 1 < 2 ^ 15
      → (t' : Ints) × (treeint_st_insert calloc fuel t a ≡ some (t', not (has a ks)))
        × Holds t' (if has a ks then ks else with_key a ks) (m + tall h.tree.shape + 1)
  treeint_st_insert-Holds calloc fuel new enough small = elim (Bool-cases (has a ks)) [
    | inl e ↦ rw e (
      t,
      insert_present calloc fuel e enough,
      Holds-mono (m + tall h.tree.shape + 1) (omega arith),
    )
    | inr e ↦ rw e (insert_absent calloc fuel e new enough small)
  ]

  remove_absent :
      (fuel : ℕ)
      → has a ks ≡ false
      → length ks + 1 < fuel
      → treeint_st_remove fuel t a ≡ some (t, false)
  unfolding treeint_st_remove
  remove_absent fuel e enough =
      ap (Option.map (λ (o : Tree × Bool × ℕ). (record { tree = o.0; value = t.value }, o.1))) (
        st_remove-absent (treeint_st_cmp t.value) fuel t.tree a h.nodes h.tree nodes-Rising
          (ground (arith, found, e)) (omega (arith, nodes_length)))

  remove_present :
      (fuel : ℕ)
      → has a ks ≡ true
      → length ks + 1 < fuel
      → m + tall h.tree.shape + 1 < 2 ^ 15
      → (t' : Ints) × (treeint_st_remove fuel t a ≡ some (t', true))
        × Holds t' (without a ks) (m + tall h.tree.shape + 1)
  unfolding treeint_st_remove
  remove_present fuel e enough small =
      let there : seek v h.nodes ≢ 0 = ground (arith, found, e) in
      let u =
        st_remove-erase (treeint_st_cmp t.value) fuel t.tree a h.nodes m h.tree h.hints nodes-Rising
          there (omega (arith, nodes_length)) (omega (arith, nodes_length)) in
      (
        record { tree = u.after; value = t.value },
        ap (Option.map (λ (o : Tree × Bool × ℕ). (record { tree = o.0; value = t.value }, o.1)))
            u.run,
        record {
          nodes = erase (seek v h.nodes) h.nodes;
          tree = u.tree;
          values = map-erase t.value a a_small h.nodes nodes_small there ∙ ap (without a) h.values;
          small = AllSmall-without a ks h.small;
          ascending = Ascending-without a ks h.ascending;
          hints =
              HintsTo-mono u.after (m + tall h.tree.shape + 1) (m + tall h.tree.shape + 1)
                (omega arith) u.hints;
        },
      )

  -- `treeint_st_remove` returns 0 if the integer was in the set, and -1 otherwise, and it is not in
  -- the set then and the others as before, for integers below 2 ^ 30 in absolute value, if no hint is
  -- above `m` before and `m` plus the height of the tree plus 1 is below 2 ^ 15; no hint is above this sum
  -- then.
  pub treeint_st_remove-Holds :
      (fuel : ℕ)
      → length ks + 1 < fuel
      → m + tall h.tree.shape + 1 < 2 ^ 15
      → (t' : Ints) × (treeint_st_remove fuel t a ≡ some (t', has a ks))
        × Holds t' (without a ks) (m + tall h.tree.shape + 1)
  treeint_st_remove-Holds fuel enough small = elim (Bool-cases (has a ks)) [
    | inl e ↦ rw e (remove_present fuel e enough small)
    | inr e ↦
        rw (e, without-absent a ks e)
          (t, remove_absent fuel e enough, Holds-mono (m + tall h.tree.shape + 1) (omega arith))
  ]

  -- `treeint_st_find` returns NULL just if the integer is not in the set, and otherwise a node with it,
  -- for integers below 2 ^ 30 in absolute value.
  pub treeint_st_find-has :
      (fuel : ℕ)
      → length ks < fuel
      → (n : ℕ) × (treeint_st_find fuel t a ≡ some n)
        × ((n == 0) ≡ not (has a ks))
        × (n ≢ 0 → t.value n ≡ a)
  unfolding treeint_st_find
  treeint_st_find-has fuel enough = (
    seek v h.nodes,
    st_find-seek (treeint_st_cmp t.value) a fuel t.tree h.nodes h.tree nodes-Rising
        (omega (arith, nodes_length)),
    ground (arith, found),
    seek-value t.value a a_small h.nodes nodes_small,
  )
