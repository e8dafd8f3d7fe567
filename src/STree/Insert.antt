-- ===== src/STree/Insert.antt =====
-- `st_insert`: the new node stands where its key belongs.
use linux_summer.Prelude.{
  ℕ, ◌+◌, ◌≤◌, ◌<◌, ◌^◌, ◌≡◌, refl, ap, subst, ◌∙◌, arith, true, ℕ_discrete, some, List, [], length,
  count,
}
use linux_summer.Prelude.Int.{ℤ}
use linux_summer.STree.{Tree, none_dir, st_insert}
use linux_summer.STree.Shape.{
  Shape, top, Below, inorder, within, outside, IsTree, HintsTo, tall, tall-inorder,
}
use linux_summer.STree.Search.{seek, place, Rising}
use linux_summer.STree.Find.{against, find_slot-Located, Located}
use linux_summer.STree.Put.{put_new-IsTree}
use linux_summer.STree.Attach.{Creates, count-fill, Focus-created}

-- `st_insert` returns 0 with a tree of the nodes `ys`.
pub record Inserted {K : Type 0} (cmp : ℕ → K → ℤ) (create : Tree → K → Tree × ℕ) (fuel : ℕ)
    (s : Tree) (key : K) (ys : List ℕ) (m : ℕ) : Type 0 where
  pub after : Tree
  pub run : st_insert cmp create fuel s key ≡ some (after, true)
  pub tree : IsTree after ys
  pub hints : HintsTo after m

pub whole-Located :
    {K : Type 0} (cmp : ℕ → K → ℤ) (fuel : ℕ) (s : Tree) (key : K) (t : Shape)
    → Below s 0 t s.root
    → ((a : ℕ) → within t a ≤ 1)
    → Rising (against cmp key) (inorder t)
    → length (inorder t) < fuel
    → Located cmp key fuel s s.root 0 none_dir top (inorder t) (tall t)
whole-Located cmp fuel s key t b d h enough =
    find_slot-Located cmp key fuel s top t s.root 0 none_dir (tall t) (omega arith)
      (record { above = (refl, refl); below = b; distinct = λ a. omega (arith, d a) }) refl h enough

Creates-HintsTo :
    (s s' : Tree) (n m : ℕ) (xs : List ℕ) → Creates s s' n xs → HintsTo s m → HintsTo s' m
Creates-HintsTo s s' n m xs k h a =
    let (j, e, b) = h a in
    elim (ℕ_discrete a n) [
      | yes q ↦ (0, ap s'.hint q ∙ k.zeroed.3, omega arith)
      | no ne ↦ (j, k.hint a ne ∙ e, b)
    ]

pub Inserted-shape :
    {K : Type 0} (cmp : ℕ → K → ℤ) (create : Tree → K → Tree × ℕ) (fuel : ℕ) (s : Tree) (key : K)
    (t : Shape) (m : ℕ)
    → Below s 0 t s.root
    → ((a : ℕ) → within t a ≤ 1)
    → HintsTo s m
    → Rising (against cmp key) (inorder t)
    → seek (against cmp key) (inorder t) ≡ 0
    → Creates s (create s key).0 (create s key).1 (inorder t)
    → length (inorder t) + 1 < fuel
    → m + tall t + 1 < 2 ^ 15
    → Inserted cmp create fuel s key
        (place (against cmp key) (create s key).1 (inorder t))
        (m + tall t + 1)
unfolding st_insert
Inserted-shape cmp create fuel s key t m b d h r absent k enough small =
    let s' = (create s key).0 in
    let n = (create s key).1 in
    let o = whole-Located cmp fuel s key t b d r (omega arith) in
    let before = o.before absent in
    let off : outside o.around n ≡ 0 =
      omega (arith, count-fill o.around [] n, ap (count n) before, k.unused) in
    let put =
      put_new-IsTree fuel s' o.around o.parent o.dir n m (tall t) o.at
        (Focus-created s s' o.around 0 o.parent n k.same k.root off (o.focus absent)) k.nonzero off
        k.zeroed.0 k.zeroed.1 k.zeroed.2 (Creates-HintsTo s s' n m (inorder t) k h) o.deep
        (omega (arith, tall-inorder t)) small in
    record {
      after = put.after;
      run = ground (arith, o.run, absent, put.run);
      tree = subst (λ z. IsTree put.after z) (o.after n absent) put.tree;
      hints = put.hints;
    }
