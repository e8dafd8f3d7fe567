-- ===== src/STree/Remove/Hints.antt =====
-- `st_replace_right` and `st_replace_left` write no hint.
use linux_summer.Prelude.{ℕ, ◌≡◌, ◌∙◌, arith}
use linux_summer.STree.{Tree, move_root, relink, adopt}
use linux_summer.STree.Shape.{HintsTo}
use linux_summer.STree.Remove.{
  splice_right, splice_left, hand_over, settle_right, settle_left, take_right, take_left,
  link_right, link_left, st_replace_right, st_replace_left,
}

relink_hint : (s : Tree) (p n x k : ℕ) → (relink s p n x).hint k ≡ s.hint k
unfolding relink
relink_hint s p n x k = ground arith

adopt_hint : (s : Tree) (b n k : ℕ) → (adopt s b n).hint k ≡ s.hint k
unfolding adopt
adopt_hint s b n k = ground arith

hand_over_hint : (s : Tree) (rp n r k : ℕ) → (hand_over s rp n r).hint k ≡ s.hint k
unfolding hand_over
hand_over_hint s rp n r k = ground arith

splice_right_hint : (s : Tree) (rp r k : ℕ) → (splice_right s rp r).hint k ≡ s.hint k
unfolding splice_right adopt
splice_right_hint s rp r k = ground arith

splice_left_hint : (s : Tree) (lp l k : ℕ) → (splice_left s lp l).hint k ≡ s.hint k
unfolding splice_left adopt
splice_left_hint s lp l k = ground arith

take_right_hint : (s : Tree) (n r k : ℕ) → (take_right s n r).hint k ≡ s.hint k
unfolding take_right
take_right_hint s n r k = ground arith

take_left_hint : (s : Tree) (n l k : ℕ) → (take_left s n l).hint k ≡ s.hint k
unfolding take_left
take_left_hint s n l k = ground arith

link_right_hint : (s : Tree) (p n r k : ℕ) → (link_right s p n r).hint k ≡ s.hint k
unfolding link_right
link_right_hint s p n r k =
    let t = relink s p n r in adopt_hint t (t.left n) r k ∙ relink_hint s p n r k

link_left_hint : (s : Tree) (p n l k : ℕ) → (link_left s p n l).hint k ≡ s.hint k
unfolding link_left
link_left_hint s p n l k =
    let t = relink s p n l in adopt_hint t (t.right n) l k ∙ relink_hint s p n l k

move_root_hint : (s : Tree) (n r k : ℕ) → (move_root s n r).hint k ≡ s.hint k
unfolding move_root
move_root_hint s n r k = ground arith

st_replace_right_hint : (s : Tree) (n r k : ℕ) → (st_replace_right s n r).hint k ≡ s.hint k
unfolding st_replace_right settle_right
st_replace_right_hint s n r k =
    let p = s.parent n in
    let rp = s.parent r in
    let s₁ = splice_right s rp r in
    let s₂ = hand_over s₁ rp n r in
    let s₃ = settle_right s₂ n r p in
    link_right_hint (take_right s₃ n r) p n r k
    ∙ take_right_hint s₃ n r k
    ∙ hand_over_hint s₁ rp n r k
    ∙ splice_right_hint s rp r k

st_replace_left_hint : (s : Tree) (n l k : ℕ) → (st_replace_left s n l).hint k ≡ s.hint k
unfolding st_replace_left settle_left
st_replace_left_hint s n l k =
    let p = s.parent n in
    let lp = s.parent l in
    let s₁ = splice_left s lp l in
    let s₂ = hand_over s₁ lp n l in
    let s₃ = settle_left s₂ n l p in
    link_left_hint (take_left s₃ n l) p n l k
    ∙ take_left_hint s₃ n l k
    ∙ hand_over_hint s₁ lp n l k
    ∙ splice_left_hint s lp l k

HintsTo-eq : (s s' : Tree) (m : ℕ) → ((k : ℕ) → s'.hint k ≡ s.hint k) → HintsTo s m → HintsTo s' m
HintsTo-eq s s' m e h k = let (j, ej, le) = h k in (j, e k ∙ ej, le)

pub replaced_right-HintsTo :
    (s : Tree) (n r m : ℕ) → HintsTo s m → HintsTo (st_replace_right (move_root s n r) n r) m
replaced_right-HintsTo s n r m =
    HintsTo-eq s (st_replace_right (move_root s n r) n r) m
      (λ k. st_replace_right_hint (move_root s n r) n r k ∙ move_root_hint s n r k)

pub replaced_left-HintsTo :
    (s : Tree) (n l m : ℕ) → HintsTo s m → HintsTo (st_replace_left (move_root s n l) n l) m
replaced_left-HintsTo s n l m =
    HintsTo-eq s (st_replace_left (move_root s n l) n l) m
      (λ k. st_replace_left_hint (move_root s n l) n l k ∙ move_root_hint s n l k)
