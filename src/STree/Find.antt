-- ===== src/STree/Find.antt =====
-- `__st_find2` and `__st_find`: the node with a key, and the place of a key that no node has.
use linux_summer.Prelude.{
  ℕ, zero, suc, ◌+◌, ◌≤◌, ◌<◌, ◌≡◌, ◌≢◌, refl, sym, ap, subst, ◌∙◌, arith, inl, inr, some, List, [],
  ◌∷◌, length, length-append,
}
use linux_summer.Prelude.Int.{ℤ, pos, negsuc}
use linux_summer.STree.{Tree, Dir, left_dir, right_dir, none_dir, find_node, find_slot}
use linux_summer.STree.Shape.{
  Shape, leaf, node, Around, top, left_of, right_of, Below, Above, Focus, inorder, fill, depth,
  tall, tall-node,
}
use linux_summer.STree.Search.{
  seek, place, Rising, ℤ-cases, Rising-front, Rising-back, seek-front, seek-back, place-front,
  place-back, place-nil, seek-at, seek-nil,
}

-- the direction in which the parent has the subtree
abbrev pub At : Dir → Around → Type 0
At d top = d ≡ none_dir
At d (left_of c a r) = d ≡ left_dir
At d (right_of l a c) = d ≡ right_dir

pub down_left :
    (s : Tree) (c : Around) (l r : Shape) (a p : ℕ)
    → Focus s c (node l a r) a p
    → Focus s (left_of c a r) l (s.left a) a
down_left s c l r a p f =
    let (e, nz, pe, bl, br) = f.below in
    record {
      above = (refl, nz, refl, br, subst (λ z. Above s c a z) (sym pe) f.above);
      below = bl;
      distinct = λ z. omega (arith, f.distinct z);
    }

pub down_right :
    (s : Tree) (c : Around) (l r : Shape) (a p : ℕ)
    → Focus s c (node l a r) a p
    → Focus s (right_of l a c) r (s.right a) a
down_right s c l r a p f =
    let (e, nz, pe, bl, br) = f.below in
    record {
      above = (refl, nz, refl, bl, subst (λ z. Above s c a z) (sym pe) f.above);
      below = br;
      distinct = λ z. omega (arith, f.distinct z);
    }

module _ {K : Type 0} (cmp : ℕ → K → ℤ) (key : K) where
  abbrev pub against : ℕ → ℤ
  against a = cmp a key

  -- In a tree whose nodes are in order against the key, `__st_find2` finds the node with the key.
  pub find_node_lem :
      (fuel : ℕ) (s : Tree) (p : ℕ) (t : Shape) (x : ℕ)
      → Below s p t x
      → Rising against (inorder t)
      → length (inorder t) < fuel
      → find_node cmp key fuel s x ≡ some (seek against (inorder t))
  unfolding find_node
  find_node_lem zero s p t x b r enough = absurd (omega arith)
  find_node_lem (suc fuel) s p leaf x b r enough = ground (arith, b, seek-nil against)
  find_node_lem (suc fuel) s p (node l a r) x (e, nz, pe, bl, br) h enough =
      let on_left =
        find_node_lem fuel s a l (s.left a) bl (Rising-front against (inorder l) (a ∷ inorder r) h)
          (omega (arith, length-append (inorder l) (a ∷ inorder r))) in
      let on_right =
        find_node_lem fuel s a r (s.right a) br
          (Rising-back against (inorder l) (a ∷ inorder r) h).1
          (omega (arith, length-append (inorder l) (a ∷ inorder r))) in
      subst (λ z. find_node cmp key (suc fuel) s z ≡ some (seek against (inorder (node l a r))))
        (sym e)
        (elim (ℤ-cases (cmp a key)) [
          | inl c ↦ ground (arith, c, nz, seek-at against (inorder l) a (inorder r) c h)
          | inr (inl (k, c)) ↦
              ground (arith, c, nz, on_left, seek-front against (inorder l) a (inorder r) k c h)
          | inr (inr (k, c)) ↦
              ground (arith, c, nz, on_right, seek-back against (inorder l) a (inorder r) k c h)
        ])

  -- Where `__st_find` ends: at the node with the key, or at the place for it below `parent`.
  pub record Located (fuel : ℕ) (s : Tree) (x p : ℕ) (d : Dir) (c : Around) (xs : List ℕ) (h : ℕ)
      : Type 0 where
    pub parent : ℕ
    pub dir : Dir
    pub run : find_slot cmp key fuel s x p d ≡ some (seek against xs, parent, dir)
    pub around : Around
    pub at : At dir around
    pub deep : depth around ≤ h
    pub focus : seek against xs ≡ 0 → Focus s around leaf 0 parent
    pub before : seek against xs ≡ 0 → fill around [] ≡ fill c xs
    pub after : (n : ℕ) → seek against xs ≡ 0 → fill around (n ∷ []) ≡ fill c (place against n xs)

  Located-here :
      (fuel : ℕ) (s : Tree) (c : Around) (l r : Shape) (a p : ℕ) (d : Dir) (high : ℕ)
      → depth c ≤ high
      → a ≢ 0
      → At d c
      → Rising against (inorder (node l a r))
      → cmp a key ≡ pos 0
      → Located (suc fuel) s a p d c (inorder (node l a r)) high
  unfolding find_slot
  Located-here fuel s c l r a p d high low nz u h e =
      let found = seek-at against (inorder l) a (inorder r) e h in
      record {
        parent = p;
        dir = d;
        run = ground (arith, e, found);
        around = c;
        at = u;
        deep = low;
        focus = λ z. absurd (nz (sym found ∙ z));
        before = λ z. absurd (nz (sym found ∙ z));
        after = λ n z. absurd (nz (sym found ∙ z));
      }

  Located-left :
      (fuel : ℕ) (s : Tree) (c : Around) (l r : Shape) (a p : ℕ) (d : Dir) (k high : ℕ)
      → a ≢ 0
      → Rising against (inorder (node l a r))
      → cmp a key ≡ pos (suc k)
      → Located fuel s (s.left a) a left_dir (left_of c a r) (inorder l) high
      → Located (suc fuel) s a p d c (inorder (node l a r)) high
  unfolding find_slot
  Located-left fuel s c l r a p d k high nz h e o =
      let same = seek-front against (inorder l) a (inorder r) k e h in
      record {
        parent = o.parent;
        dir = o.dir;
        run = ground (arith, e, nz, o.run, same);
        around = o.around;
        at = o.at;
        deep = o.deep;
        focus = λ z. o.focus (sym same ∙ z);
        before = λ z. o.before (sym same ∙ z);
        after = λ n z.
            o.after n (sym same ∙ z)
            ∙ ap (fill c) (sym (place-front against n (inorder l) a (inorder r) k e));
      }

  Located-right :
      (fuel : ℕ) (s : Tree) (c : Around) (l r : Shape) (a p : ℕ) (d : Dir) (k high : ℕ)
      → a ≢ 0
      → Rising against (inorder (node l a r))
      → cmp a key ≡ negsuc k
      → Located fuel s (s.right a) a right_dir (right_of l a c) (inorder r) high
      → Located (suc fuel) s a p d c (inorder (node l a r)) high
  unfolding find_slot
  Located-right fuel s c l r a p d k high nz h e o =
      let same = seek-back against (inorder l) a (inorder r) k e h in
      record {
        parent = o.parent;
        dir = o.dir;
        run = ground (arith, e, nz, o.run, same);
        around = o.around;
        at = o.at;
        deep = o.deep;
        focus = λ z. o.focus (sym same ∙ z);
        before = λ z. o.before (sym same ∙ z);
        after = λ n z.
            o.after n (sym same ∙ z)
            ∙ ap (fill c) (sym (place-back against n (inorder l) a (inorder r) k e h));
      }

  pub find_slot-Located :
      (fuel : ℕ) (s : Tree) (c : Around) (t : Shape) (x p : ℕ) (d : Dir) (high : ℕ)
      → depth c + tall t ≤ high
      → Focus s c t x p
      → At d c
      → Rising against (inorder t)
      → length (inorder t) < fuel
      → Located fuel s x p d c (inorder t) high
  unfolding find_slot
  find_slot-Located zero s c t x p d high low f u h enough = absurd (omega arith)
  find_slot-Located (suc fuel) s c leaf x p d high low f u h enough = record {
    parent = p;
    dir = d;
    run = ground (arith, f.below, seek-nil against);
    around = c;
    at = u;
    deep = omega (arith, low);
    focus = λ z. subst (λ y. Focus s c leaf y p) f.below f;
    before = λ z. refl;
    after = λ n z. ap (fill c) (sym (place-nil against n));
  }
  find_slot-Located (suc fuel) s c (node l a r) x p d high low f u h enough =
      let xs = inorder (node l a r) in
      let size = length-append (inorder l) (a ∷ inorder r) in
      let higher = tall-node l a r in
      let at_a = subst (λ z. Focus s c (node l a r) z p) f.below.0 f in
      let on_left =
        find_slot-Located fuel s (left_of c a r) l (s.left a) a left_dir high
          (omega (arith, low, higher)) (down_left s c l r a p at_a) refl
          (Rising-front against (inorder l) (a ∷ inorder r) h) (omega (arith, size)) in
      let on_right =
        find_slot-Located fuel s (right_of l a c) r (s.right a) a right_dir high
          (omega (arith, low, higher)) (down_right s c l r a p at_a) refl
          (Rising-back against (inorder l) (a ∷ inorder r) h).1 (omega (arith, size)) in
      subst (λ z. Located (suc fuel) s z p d c xs high) (sym f.below.0)
        (elim (ℤ-cases (cmp a key)) [
          | inl e ↦ Located-here fuel s c l r a p d high (omega (arith, low)) f.below.1 u h e
          | inr (inl (k, e)) ↦ Located-left fuel s c l r a p d k high f.below.1 h e on_left
          | inr (inr (k, e)) ↦ Located-right fuel s c l r a p d k high f.below.1 h e on_right
        ])
