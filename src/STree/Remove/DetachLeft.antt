-- ===== src/STree/Remove/DetachLeft.antt =====
-- What `st_replace_left` writes before its last two statements.
use linux_summer.Prelude.{ℕ, ◌≡◌, ◌≢◌, sym, ap, subst, ◌∙◌, ◌⊎◌, arith}
use linux_summer.STree.{Tree, adopt, move_root}
use linux_summer.STree.Remove.Fields.{move_root_cases}
use linux_summer.STree.Remove.{splice_left, hand_over, settle_left, take_left}

-- What is written before them in `st_replace_left`, when `r` is deeper: `q` is the left child of `n`,
-- `r` the right child of `rp` and `b` the left child of `r`.
pub record Detached (s t : Tree) (n r c q b rp p : ℕ) : Type 0 where
  pub hint : (a : ℕ) → t.hint a ≡ s.hint a
  pub parents : (a : ℕ) → a ≢ r → a ≢ q → (b ≡ 0) ⊎ (a ≢ b) → t.parent a ≡ s.parent a
  pub rights : (a : ℕ) → a ≢ r → a ≢ rp → t.right a ≡ s.right a
  pub lefts : (a : ℕ) → a ≢ r → t.left a ≡ s.left a
  pub new : (t.parent r ≡ p) × (t.right r ≡ c) × (t.left r ≡ q)
  pub upper : t.parent q ≡ r
  pub lower : t.right rp ≡ b
  pub orphan : b ≢ 0 → t.parent b ≡ rp

record Spliced (s t : Tree) (r b rp : ℕ) : Type 0 where
  pub root : t.root ≡ s.root
  pub hint : (a : ℕ) → t.hint a ≡ s.hint a
  pub parents : (a : ℕ) → (b ≡ 0) ⊎ (a ≢ b) → t.parent a ≡ s.parent a
  pub orphan : b ≢ 0 → t.parent b ≡ rp
  pub rights : (a : ℕ) → a ≢ rp → t.right a ≡ s.right a
  pub lower : t.right rp ≡ b
  pub lefts : (a : ℕ) → t.left a ≡ s.left a

splice_left-Spliced :
    (s : Tree) (r b rp : ℕ) → s.right rp ≡ r → s.left r ≡ b → Spliced s (splice_left s rp r) r b rp
unfolding splice_left adopt
splice_left-Spliced s r b rp e e' = record {
  root = ground arith;
  hint = λ a. ground arith;
  parents = λ a o. ground arith;
  orphan = λ nz. ground arith;
  rights = λ a o. ground arith;
  lower = ground arith;
  lefts = λ a. ground arith;
}

record HandedOver (s t : Tree) (n r rp : ℕ) : Type 0 where
  pub root : t.root ≡ s.root
  pub hint : (a : ℕ) → t.hint a ≡ s.hint a
  pub parents : (a : ℕ) → a ≢ rp → t.parent a ≡ s.parent a
  pub parent : s.parent rp ≢ n → t.parent rp ≡ s.parent rp
  pub links : (a : ℕ) → (t.right a ≡ s.right a) × (t.left a ≡ s.left a)

hand_over-HandedOver : (s : Tree) (n r rp : ℕ) → HandedOver s (hand_over s rp n r) n r rp
unfolding hand_over
hand_over-HandedOver s n r rp = record {
  root = ground arith;
  hint = λ a. ground arith;
  parents = λ a o. ground arith;
  parent = λ o. ground arith;
  links = λ a. (ground arith, ground arith);
}

record Taken (s t : Tree) (n r q : ℕ) : Type 0 where
  pub root : t.root ≡ s.root
  pub hint : (a : ℕ) → t.hint a ≡ s.hint a
  pub parents : (a : ℕ) → a ≢ q → t.parent a ≡ s.parent a
  pub upper : t.parent q ≡ r
  pub rights : (a : ℕ) → t.right a ≡ s.right a
  pub lefts : (a : ℕ) → a ≢ r → t.left a ≡ s.left a
  pub new : t.left r ≡ q

take_left-Taken :
    (s : Tree) (n r q : ℕ) → s.left n ≡ q → q ≢ r → n ≢ r → Taken s (take_left s n r) n r q
unfolding take_left
take_left-Taken s n r q e ne nr = record {
  root = ground arith;
  hint = λ a. ground arith;
  parents = λ a o. ground arith;
  upper = ground arith;
  rights = λ a. ground arith;
  lefts = λ a o. ground arith;
  new = ground arith;
}

abbrev pub detach_left : Tree → ℕ → ℕ → Tree
detach_left s n r =
    let p = s.parent n in
    let rp = s.parent r in take_left (settle_left (hand_over (splice_left s rp r) rp n r) n r p) n r

pub detach_left-Detached :
    (s : Tree) (n r c q b : ℕ)
    → s.left n ≡ q
    → s.right n ≡ c
    → s.right (s.parent r) ≡ r
    → s.left r ≡ b
    → (s.parent r ≢ q → s.parent (s.parent r) ≢ n)
    → n ≢ r
    → q ≢ r
    → s.parent r ≢ r
    → s.parent r ≢ n
    → (b ≢ 0 → (b ≢ q) × (b ≢ r) × (b ≢ s.parent r))
    → Detached s (detach_left s n r) n r c q b (s.parent r) (s.parent n)
unfolding settle_left
detach_left-Detached s n r c q b er el elr erb far nr qr rpr rpn bs =
    let p = s.parent n in
    let rp = s.parent r in
    let t₁ = splice_left s rp r in
    let k₁ = splice_left-Spliced s r b rp elr erb in
    let t₂ = hand_over t₁ rp n r in
    let k₂ = hand_over-HandedOver t₁ n r rp in
    let t₃ = settle_left t₂ n r p in
    let left_n : t₃.left n ≡ q = ground (arith, k₂.links n, k₁.lefts n) in
    let k₃ = take_left-Taken t₃ n r q left_n qr nr in
    record {
      hint = λ a. ground (arith, k₁.hint a, k₂.hint a, k₃.hint a);
      parents = λ a ar aq ab.
          ground (arith, k₁.parents a ab, k₂.parents a, k₂.parent, k₃.parents a, far, bs);
      rights = λ a ar arp. ground (arith, k₁.rights a, k₂.links a, k₃.rights a);
      lefts = λ a ar. ground (arith, k₁.lefts a, k₂.links a, k₃.lefts a);
      new = (
        ground (arith, k₃.parents r),
        ground (arith, k₃.rights r, k₂.links n, k₁.rights n),
        k₃.new,
      );
      upper = k₃.upper;
      lower = ground (arith, k₃.rights rp, k₂.links rp, k₁.lower);
      orphan = λ nz. ground (arith, bs nz, k₃.parents b, k₂.parents b, k₁.orphan nz);
    }

splice_left_root : (s : Tree) (rp r : ℕ) → (splice_left s rp r).root ≡ s.root
unfolding splice_left adopt
splice_left_root s rp r = ground arith

take_left_root : (s : Tree) (n r : ℕ) → (take_left s n r).root ≡ s.root
unfolding take_left
take_left_root s n r = ground arith

pub detach_left_root : (s : Tree) (n r : ℕ) → (detach_left s n r).root ≡ s.root
unfolding settle_left
detach_left_root s n r =
    let p = s.parent n in
    let rp = s.parent r in
    let t₁ = splice_left s rp r in
    let t₂ = hand_over t₁ rp n r in
    take_left_root (settle_left t₂ n r p) n r
    ∙ (hand_over-HandedOver t₁ n r rp).root
    ∙ splice_left_root s rp r

Detached-root :
    (s t : Tree) (n r c q b rp p x : ℕ)
    → Detached (record s { root = x }) t n r c q b rp p
    → Detached s t n r c q b rp p
Detached-root s t n r c q b rp p x k = record {
  hint = k.hint;
  parents = k.parents;
  rights = k.rights;
  lefts = k.lefts;
  new = k.new;
  upper = k.upper;
  lower = k.lower;
  orphan = k.orphan;
}

pub moved_left-Detached :
    (s : Tree) (n r c q b rp p : ℕ)
    → s.left n ≡ q
    → s.right n ≡ c
    → s.parent n ≡ p
    → s.parent r ≡ rp
    → s.right rp ≡ r
    → s.left r ≡ b
    → (rp ≢ q → s.parent rp ≢ n)
    → n ≢ r
    → q ≢ r
    → rp ≢ r
    → rp ≢ n
    → (b ≢ 0 → (b ≢ q) × (b ≢ r) × (b ≢ rp))
    → Detached s (detach_left (move_root s n r) n r) n r c q b rp p
moved_left-Detached s n r c q b rp p er el ep erp elr erb far nr qr rpr rpn bs =
    subst (λ z. Detached s (detach_left (move_root s n r) n r) n r c q b rp z) ep
      (subst (λ z. Detached s (detach_left (move_root s n r) n r) n r c q b z (s.parent n)) erp
        (move_root_cases (λ u. Detached s (detach_left u n r) n r c q b (s.parent r) (s.parent n)) s
          n r
          (Detached-root s (detach_left (record s { root = r }) n r) n r c q b (s.parent r)
            (s.parent n) r
            (detach_left-Detached (record s { root = r }) n r c q b er el elr' erb far' nr qr rpr'
              rpn' bs'))
          (detach_left-Detached s n r c q b er el elr' erb far' nr qr rpr' rpn' bs')))
  where
    elr' : s.right (s.parent r) ≡ r
    elr' = ap s.right erp ∙ elr

    far' : s.parent r ≢ q → s.parent (s.parent r) ≢ n
    far' ne z = far (λ t. ne (erp ∙ t)) (ap s.parent (sym erp) ∙ z)

    rpr' : s.parent r ≢ r
    rpr' z = rpr (sym erp ∙ z)

    rpn' : s.parent r ≢ n
    rpn' z = rpn (sym erp ∙ z)

    bs' : b ≢ 0 → (b ≢ q) × (b ≢ r) × (b ≢ s.parent r)
    bs' z = ((bs z).0, (bs z).1, λ t. (bs z).2 (t ∙ erp))
