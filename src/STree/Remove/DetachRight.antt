-- ===== src/STree/Remove/DetachRight.antt =====
-- What `st_replace_right` writes before its last two statements.
use linux_summer.Prelude.{ℕ, ◌≡◌, ◌≢◌, sym, ap, subst, ◌∙◌, ◌⊎◌, arith}
use linux_summer.STree.{Tree, adopt, move_root}
use linux_summer.STree.Remove.Fields.{move_root_cases}
use linux_summer.STree.Remove.{splice_right, hand_over, settle_right, take_right}

-- What is written before them in `st_replace_right`, when `r` is deeper: `q` is the right child of `n`,
-- `r` the left child of `rp` and `b` the right child of `r`.
pub record Detached (s t : Tree) (n r c q b rp p : ℕ) : Type 0 where
  pub hint : (a : ℕ) → t.hint a ≡ s.hint a
  pub parents : (a : ℕ) → a ≢ r → a ≢ q → (b ≡ 0) ⊎ (a ≢ b) → t.parent a ≡ s.parent a
  pub lefts : (a : ℕ) → a ≢ r → a ≢ rp → t.left a ≡ s.left a
  pub rights : (a : ℕ) → a ≢ r → t.right a ≡ s.right a
  pub new : (t.parent r ≡ p) × (t.left r ≡ c) × (t.right r ≡ q)
  pub upper : t.parent q ≡ r
  pub lower : t.left rp ≡ b
  pub orphan : b ≢ 0 → t.parent b ≡ rp

record Spliced (s t : Tree) (r b rp : ℕ) : Type 0 where
  pub root : t.root ≡ s.root
  pub hint : (a : ℕ) → t.hint a ≡ s.hint a
  pub parents : (a : ℕ) → (b ≡ 0) ⊎ (a ≢ b) → t.parent a ≡ s.parent a
  pub orphan : b ≢ 0 → t.parent b ≡ rp
  pub lefts : (a : ℕ) → a ≢ rp → t.left a ≡ s.left a
  pub lower : t.left rp ≡ b
  pub rights : (a : ℕ) → t.right a ≡ s.right a

splice_right-Spliced :
    (s : Tree) (r b rp : ℕ) → s.left rp ≡ r → s.right r ≡ b → Spliced s (splice_right s rp r) r b rp
unfolding splice_right adopt
splice_right-Spliced s r b rp e e' = record {
  root = ground arith;
  hint = λ a. ground arith;
  parents = λ a o. ground arith;
  orphan = λ nz. ground arith;
  lefts = λ a o. ground arith;
  lower = ground arith;
  rights = λ a. ground arith;
}

record HandedOver (s t : Tree) (n r rp : ℕ) : Type 0 where
  pub root : t.root ≡ s.root
  pub hint : (a : ℕ) → t.hint a ≡ s.hint a
  pub parents : (a : ℕ) → a ≢ rp → t.parent a ≡ s.parent a
  pub parent : s.parent rp ≢ n → t.parent rp ≡ s.parent rp
  pub links : (a : ℕ) → (t.left a ≡ s.left a) × (t.right a ≡ s.right a)

hand_over-HandedOver : (s : Tree) (n r rp : ℕ) → HandedOver s (hand_over s rp n r) n r rp
unfolding hand_over
hand_over-HandedOver s n r rp = record {
  root = ground arith;
  hint = λ a. ground arith;
  parents = λ a o. ground arith;
  parent = λ o. ground arith;
  links = λ a. (ground arith, ground arith);
}

record Taken (s t : Tree) (n r q : ℕ) : Type 0 where
  pub root : t.root ≡ s.root
  pub hint : (a : ℕ) → t.hint a ≡ s.hint a
  pub parents : (a : ℕ) → a ≢ q → t.parent a ≡ s.parent a
  pub upper : t.parent q ≡ r
  pub lefts : (a : ℕ) → t.left a ≡ s.left a
  pub rights : (a : ℕ) → a ≢ r → t.right a ≡ s.right a
  pub new : t.right r ≡ q

take_right-Taken :
    (s : Tree) (n r q : ℕ) → s.right n ≡ q → q ≢ r → n ≢ r → Taken s (take_right s n r) n r q
unfolding take_right
take_right-Taken s n r q e ne nr = record {
  root = ground arith;
  hint = λ a. ground arith;
  parents = λ a o. ground arith;
  upper = ground arith;
  lefts = λ a. ground arith;
  rights = λ a o. ground arith;
  new = ground arith;
}

abbrev pub detach_right : Tree → ℕ → ℕ → Tree
detach_right s n r =
    let p = s.parent n in
    let rp = s.parent r in
    take_right (settle_right (hand_over (splice_right s rp r) rp n r) n r p) n r

pub detach_right-Detached :
    (s : Tree) (n r c q b : ℕ)
    → s.right n ≡ q
    → s.left n ≡ c
    → s.left (s.parent r) ≡ r
    → s.right r ≡ b
    → (s.parent r ≢ q → s.parent (s.parent r) ≢ n)
    → n ≢ r
    → q ≢ r
    → s.parent r ≢ r
    → s.parent r ≢ n
    → (b ≢ 0 → (b ≢ q) × (b ≢ r) × (b ≢ s.parent r))
    → Detached s (detach_right s n r) n r c q b (s.parent r) (s.parent n)
unfolding settle_right
detach_right-Detached s n r c q b er el elr erb far nr qr rpr rpn bs =
    let p = s.parent n in
    let rp = s.parent r in
    let t₁ = splice_right s rp r in
    let k₁ = splice_right-Spliced s r b rp elr erb in
    let t₂ = hand_over t₁ rp n r in
    let k₂ = hand_over-HandedOver t₁ n r rp in
    let t₃ = settle_right t₂ n r p in
    let right_n : t₃.right n ≡ q = ground (arith, k₂.links n, k₁.rights n) in
    let k₃ = take_right-Taken t₃ n r q right_n qr nr in
    record {
      hint = λ a. ground (arith, k₁.hint a, k₂.hint a, k₃.hint a);
      parents = λ a ar aq ab.
          ground (arith, k₁.parents a ab, k₂.parents a, k₂.parent, k₃.parents a, far, bs);
      lefts = λ a ar arp. ground (arith, k₁.lefts a, k₂.links a, k₃.lefts a);
      rights = λ a ar. ground (arith, k₁.rights a, k₂.links a, k₃.rights a);
      new = (
        ground (arith, k₃.parents r),
        ground (arith, k₃.lefts r, k₂.links n, k₁.lefts n),
        k₃.new,
      );
      upper = k₃.upper;
      lower = ground (arith, k₃.lefts rp, k₂.links rp, k₁.lower);
      orphan = λ nz. ground (arith, bs nz, k₃.parents b, k₂.parents b, k₁.orphan nz);
    }

splice_right_root : (s : Tree) (rp r : ℕ) → (splice_right s rp r).root ≡ s.root
unfolding splice_right adopt
splice_right_root s rp r = ground arith

take_right_root : (s : Tree) (n r : ℕ) → (take_right s n r).root ≡ s.root
unfolding take_right
take_right_root s n r = ground arith

pub detach_right_root : (s : Tree) (n r : ℕ) → (detach_right s n r).root ≡ s.root
unfolding settle_right
detach_right_root s n r =
    let p = s.parent n in
    let rp = s.parent r in
    let t₁ = splice_right s rp r in
    let t₂ = hand_over t₁ rp n r in
    take_right_root (settle_right t₂ n r p) n r
    ∙ (hand_over-HandedOver t₁ n r rp).root
    ∙ splice_right_root s rp r

Detached-root :
    (s t : Tree) (n r c q b rp p x : ℕ)
    → Detached (record s { root = x }) t n r c q b rp p
    → Detached s t n r c q b rp p
Detached-root s t n r c q b rp p x k = record {
  hint = k.hint;
  parents = k.parents;
  lefts = k.lefts;
  rights = k.rights;
  new = k.new;
  upper = k.upper;
  lower = k.lower;
  orphan = k.orphan;
}

pub moved_right-Detached :
    (s : Tree) (n r c q b rp p : ℕ)
    → s.right n ≡ q
    → s.left n ≡ c
    → s.parent n ≡ p
    → s.parent r ≡ rp
    → s.left rp ≡ r
    → s.right r ≡ b
    → (rp ≢ q → s.parent rp ≢ n)
    → n ≢ r
    → q ≢ r
    → rp ≢ r
    → rp ≢ n
    → (b ≢ 0 → (b ≢ q) × (b ≢ r) × (b ≢ rp))
    → Detached s (detach_right (move_root s n r) n r) n r c q b rp p
moved_right-Detached s n r c q b rp p er el ep erp elr erb far nr qr rpr rpn bs =
    subst (λ z. Detached s (detach_right (move_root s n r) n r) n r c q b rp z) ep
      (subst (λ z. Detached s (detach_right (move_root s n r) n r) n r c q b z (s.parent n)) erp
        (move_root_cases (λ u. Detached s (detach_right u n r) n r c q b (s.parent r) (s.parent n))
          s n r
          (Detached-root s (detach_right (record s { root = r }) n r) n r c q b (s.parent r)
            (s.parent n) r
            (detach_right-Detached (record s { root = r }) n r c q b er el elr' erb far' nr qr rpr'
              rpn' bs'))
          (detach_right-Detached s n r c q b er el elr' erb far' nr qr rpr' rpn' bs')))
  where
    elr' : s.left (s.parent r) ≡ r
    elr' = ap s.left erp ∙ elr

    far' : s.parent r ≢ q → s.parent (s.parent r) ≢ n
    far' ne z = far (λ t. ne (erp ∙ t)) (ap s.parent (sym erp) ∙ z)

    rpr' : s.parent r ≢ r
    rpr' z = rpr (sym erp ∙ z)

    rpn' : s.parent r ≢ n
    rpn' z = rpn (sym erp ∙ z)

    bs' : b ≢ 0 → (b ≢ q) × (b ≢ r) × (b ≢ s.parent r)
    bs' z = ((bs z).0, (bs z).1, λ t. (bs z).2 (t ∙ erp))
