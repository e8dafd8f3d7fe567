-- ===== src/STree/Contract.antt =====
-- What `st_find` and `st_insert` promise of a tree in order.
use linux_summer.Prelude.{
  ℕ, ◌+◌, ◌<◌, ◌^◌, ◌≡◌, ◌≢◌, refl, sym, ap, subst, ◌∙◌, arith, true, false, some, List, length,
  count,
}
use linux_summer.Prelude.Int.{ℤ, pos}
use linux_summer.STree.{Tree, st_find, st_insert}
use linux_summer.STree.Shape.{Shape, leaf, node, Below, within, IsTree, HintsTo, tall}
use linux_summer.STree.Attach.{Creates, count-inorder}
use linux_summer.STree.Search.{seek, place, Rising, place-Rising, length-place}
use linux_summer.STree.Find.{against, find_node_lem}
use linux_summer.STree.Insert.{Inserted, Inserted-shape, whole-Located}

-- With the nodes in order against the key, `st_find` returns the node with the key, or 0 if there is none.
pub st_find-seek :
    {K : Type 0} (cmp : ℕ → K → ℤ) (key : K) (fuel : ℕ) (s : Tree) (xs : List ℕ)
    → IsTree s xs
    → Rising (against cmp key) xs
    → length xs < fuel
    → st_find cmp key fuel s ≡ some (seek (against cmp key) xs)
unfolding st_find
st_find-seek cmp key fuel s xs t r enough =
    find_node_lem cmp key fuel s 0 t.shape s.root t.links
      (subst (Rising (against cmp key)) (sym t.order) r) (omega (arith, ap length t.order))
    ∙ ap (λ z. some (seek (against cmp key) z)) t.order

-- `st_insert` of a key that a node has returns -1 and leaves the tree as it is.
pub st_insert-present :
    {K : Type 0} (cmp : ℕ → K → ℤ) (create : Tree → K → Tree × ℕ) (fuel : ℕ) (s : Tree) (key : K)
    (xs : List ℕ)
    → IsTree s xs
    → Rising (against cmp key) xs
    → seek (against cmp key) xs ≢ 0
    → length xs < fuel
    → st_insert cmp create fuel s key ≡ some (s, false)
unfolding st_insert
st_insert-present cmp create fuel s key xs t r present enough =
    let o =
      whole-Located cmp fuel s key t.shape t.links t.distinct
        (subst (Rising (against cmp key)) (sym t.order) r) (omega (arith, ap length t.order)) in
    ground (arith, o.run, present, ap (seek (against cmp key)) t.order)

-- `st_insert` of a key that no node has comes back with 0, and the tree then has the created node
-- in the place of its key and is otherwise in the same order, if no hint is above `m` before and `m` plus
-- the height of the tree plus 1 is below 2 ^ 15; no hint is above this sum then.
pub st_insert-place :
    {K : Type 0} (cmp : ℕ → K → ℤ) (create : Tree → K → Tree × ℕ) (fuel : ℕ) (s : Tree) (key : K)
    (xs : List ℕ) (m : ℕ)
    → (t : IsTree s xs) → HintsTo s m
    → Rising (against cmp key) xs
    → seek (against cmp key) xs ≡ 0
    → Creates s (create s key).0 (create s key).1 xs
    → length xs + 1 < fuel
    → m + tall t.shape + 1 < 2 ^ 15
    → Inserted cmp create fuel s key
        (place (against cmp key) (create s key).1 xs)
        (m + tall t.shape + 1)
st_insert-place cmp create fuel s key xs m t =
    subst
      (λ z.
        HintsTo s m
        → Rising (against cmp key) z
        → seek (against cmp key) z ≡ 0
        → Creates s (create s key).0 (create s key).1 z
        → length z + 1 < fuel
        → m + tall t.shape + 1 < 2 ^ 15
        → Inserted cmp create fuel s key (place (against cmp key) (create s key).1 z)
            (m + tall t.shape + 1))
      t.order (Inserted-shape cmp create fuel s key t.shape m t.links t.distinct)

pub within-null : (s : Tree) (p : ℕ) (t : Shape) (x : ℕ) → Below s p t x → within t 0 ≡ 0
within-null s p leaf x e = refl
within-null s p (node l a r) x (e, nz, pe, bl, br) =
    ground (arith, within-null s a l (s.left a) bl, within-null s a r (s.right a) br)

pub null_free : (s : Tree) (xs : List ℕ) → IsTree s xs → count 0 xs ≡ 0
null_free s xs t =
    ap (count 0) (sym t.order) ∙ count-inorder t.shape 0 ∙ within-null s 0 t.shape s.root t.links

-- After `st_insert` of a key that no node had, `st_find` returns the created node, if no hint is above `m`
-- before and `m` plus the height of the tree plus 1 is below 2 ^ 15.
pub st_insert-find :
    {K : Type 0} (cmp : ℕ → K → ℤ) (create : Tree → K → Tree × ℕ) (fuel : ℕ) (s : Tree) (key : K)
    (xs : List ℕ) (m : ℕ)
    → (t : IsTree s xs) → HintsTo s m
    → Rising (against cmp key) xs
    → seek (against cmp key) xs ≡ 0
    → Creates s (create s key).0 (create s key).1 xs
    → cmp (create s key).1 key ≡ pos 0
    → length xs + 1 < fuel
    → m + tall t.shape + 1 < 2 ^ 15
    → (s' : Tree) × (st_insert cmp create fuel s key ≡ some (s', true))
      × (st_find cmp key fuel s' ≡ some (create s key).1)
st_insert-find cmp create fuel s key xs m t h r absent k e enough small =
    let v = against cmp key in
    let n = (create s key).1 in
    let u = st_insert-place cmp create fuel s key xs m t h r absent k enough small in
    let (r', found) = place-Rising v n xs e r absent (null_free s xs t) in
    (
      u.after,
      u.run,
      st_find-seek cmp key fuel u.after (place v n xs) u.tree r'
            (omega (arith, length-place v n xs))
          ∙ ap some found,
    )
