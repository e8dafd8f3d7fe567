-- ===== src/Mpmc/Nodes/Growth.antt =====
-- What a step does to the chain: a spare node gets its number, a node is allocated, a node is linked.
use linux_summer.Prelude.{
  ℕ, ◌+◌, ◌≤◌, ◌<◌, ◌≡◌, ◌≢◌, refl, sym, ap, subst, ◌∙◌, Bool, true, false, update, update-eq,
  update-ne, ℕ_discrete, dec_lt, arith,
}
use linux_summer.Mpmc.Nodes.Chain.{Linked}

module _ (next id : ℕ → ℕ) (allocated : ℕ → Bool) (spare : ℕ → ℕ) (init_node : ℕ) (node : ℕ → ℕ)
    (last t : ℕ) (x : Linked next id allocated spare init_node node last) where
  pub Linked-id :
      (v : ℕ)
      → spare t ≢ 0
      → Linked next (update id (spare t) v) allocated spare init_node node last
  Linked-id v nz = record {
    first = x.first;
    not_null = x.not_null;
    is_allocated = x.is_allocated;
    ids = λ k le.
        update-ne id (spare t) (node k) v (λ e. x.spare_apart t k nz le (sym e)) ∙ x.ids k le;
    links = x.links;
    end = x.end;
    spare_allocated = x.spare_allocated;
    spare_next = x.spare_next;
    spare_apart = x.spare_apart;
    spares_apart = x.spares_apart;
  }

  module _ (a v : ℕ) (free : allocated a ≡ false) where
    in_use : (b : ℕ) → allocated b ≡ true → a ≢ b
    in_use b e q = cc (free, e, ap allocated q)

    stays_allocated : (b : ℕ) → allocated b ≡ true → update allocated a true b ≡ true
    stays_allocated b e = update-ne allocated a b true (in_use b e) ∙ e

    -- A spare node is the new one or an old one.
    spare-cases :
        (P : ℕ → Type 0) (u : ℕ) → (t ≡ u → P a) → (t ≢ u → P (spare u)) → P (update spare t a u)
    spare-cases P u new old = elim (ℕ_discrete t u) [
      | yes e ↦ subst P (sym (update-eq spare t u a e)) (new e)
      | no ne ↦ subst P (sym (update-ne spare t u a ne)) (old ne)
    ]

    pub Linked-new :
        Linked
          (update next a 0)
          (update id a v)
          (update allocated a true)
          (update spare t a)
          init_node
          node
          last
    Linked-new = record {
      first = x.first;
      not_null = x.not_null;
      is_allocated = λ k le. stays_allocated (node k) (x.is_allocated k le);
      ids = λ k le. update-ne id a (node k) v (in_use (node k) (x.is_allocated k le)) ∙ x.ids k le;
      links = λ k lt.
          update-ne next a (node k) 0 (in_use (node k) (x.is_allocated k (omega (arith, lt))))
          ∙ x.links k lt;
      end =
          update-ne next a (node last) 0 (in_use (node last) (x.is_allocated last (omega arith)))
          ∙ x.end;
      spare_allocated = λ u.
          spare-cases (λ b. b ≢ 0 → update allocated a true b ≡ true) u
            (λ e nz. update-eq allocated a a true refl)
            (λ ne nz. stays_allocated (spare u) (x.spare_allocated u nz));
      spare_next = λ u.
          spare-cases (λ b. b ≢ 0 → update next a 0 b ≡ 0) u (λ e nz. update-eq next a a 0 refl)
            (λ ne nz.
              update-ne next a (spare u) 0 (in_use (spare u) (x.spare_allocated u nz))
              ∙ x.spare_next u nz);
      spare_apart = λ u k.
          spare-cases (λ b. b ≢ 0 → k ≤ last → node k ≢ b) u
            (λ e nz le q. in_use (node k) (x.is_allocated k le) (sym q))
            (λ ne nz le. x.spare_apart u k nz le);
      spares_apart = λ u w.
          spare-cases (λ b. b ≢ 0 → b ≡ update spare t a w → u ≡ w) u
            (λ e nz.
              spare-cases (λ c. a ≡ c → u ≡ w) w (λ f q. sym e ∙ f)
                (λ ne q. absurd (in_use (spare w) (x.spare_allocated w (λ z. nz (q ∙ z))) q)))
            (λ ne nz.
              spare-cases (λ c. spare u ≡ c → u ≡ w) w
                (λ f q. absurd (in_use (spare u) (x.spare_allocated u nz) (sym q)))
                (λ other q. x.spares_apart u w nz q));
    }

  -- A node of the chain without a successor is the last.
  pub is_last : (j : ℕ) → j ≤ last → next (node j) ≡ 0 → j ≡ last
  is_last j le e = elim (dec_lt j last) [
    | yes lt ↦ absurd (x.not_null (j + 1) (omega arith) (sym (x.links j lt) ∙ e))
    | no ge ↦ omega arith
  ]

  module _ (nz : spare t ≢ 0) (d : id (spare t) ≡ last + 1) where
    abbrev longer : ℕ → ℕ
    longer = update node (last + 1) (spare t)

    pub old_node : (k : ℕ) → k ≤ last → longer k ≡ node k
    old_node k le = update-ne node (last + 1) k (spare t) (λ e. omega (arith, e, le))

    -- A node of the longer chain is the spare one or an old one.
    node-cases :
        (P : ℕ → Type 0) (k : ℕ)
        → k ≤ last + 1
        → (k ≡ last + 1 → P (spare t))
        → (k ≤ last → P (node k))
        → P (longer k)
    node-cases P k le new old = elim (ℕ_discrete (last + 1) k) [
      | yes e ↦ subst P (sym (update-eq node (last + 1) k (spare t) e)) (new (sym e))
      | no ne ↦
          subst P (sym (update-ne node (last + 1) k (spare t) ne)) (old (omega (arith, le, ne)))
    ]

    not_end : (k : ℕ) → k < last → node last ≢ node k
    not_end k lt e =
        omega (arith, x.ids k (omega (arith, lt)), x.ids last (omega arith), ap id e, lt)

    kept_spare :
        (P : ℕ → Type 0) (u : ℕ)
        → (t ≢ u → spare u ≢ 0 → P (spare u))
        → update spare t 0 u ≢ 0
        → P (update spare t 0 u)
    kept_spare P u f h = elim (ℕ_discrete t u) [
      | yes e ↦ absurd (h (update-eq spare t u 0 e))
      | no ne ↦ (let q = update-ne spare t u 0 ne in subst P (sym q) (f ne (λ z. h (q ∙ z))))
    ]

    pub Linked-link :
        Linked
          (update next (node last) (spare t))
          id
          allocated
          (update spare t 0)
          init_node
          longer
          (last + 1)
    Linked-link = record {
      first = old_node 0 (omega arith) ∙ x.first;
      not_null = λ k le. node-cases (λ b. b ≢ 0) k le (λ e. nz) (λ old. x.not_null k old);
      is_allocated = λ k le.
          node-cases (λ b. allocated b ≡ true) k le (λ e. x.spare_allocated t nz)
            (λ old. x.is_allocated k old);
      ids = λ k le. node-cases (λ b. id b ≡ k) k le (λ e. d ∙ sym e) (λ old. x.ids k old);
      links = λ k lt. elim (ℕ_discrete k last) [
        | yes e ↦
            ap (update next (node last) (spare t)) (old_node k (omega (arith, e)))
            ∙ update-eq next (node last) (node k) (spare t) (ap node (sym e))
            ∙ sym (update-eq node (last + 1) (k + 1) (spare t) (omega (arith, e)))
        | no ne ↦
            ap (update next (node last) (spare t)) (old_node k (omega (arith, lt, ne)))
            ∙ update-ne next (node last) (node k) (spare t) (not_end k (omega (arith, lt, ne)))
            ∙ x.links k (omega (arith, lt, ne))
            ∙ sym (old_node (k + 1) (omega (arith, lt, ne)))
      ];
      end =
          ap (update next (node last) (spare t))
            (update-eq node (last + 1) (last + 1) (spare t) refl)
          ∙ update-ne next (node last) (spare t) (spare t) (x.spare_apart t last nz (omega arith))
          ∙ x.spare_next t nz;
      spare_allocated = λ u. kept_spare (λ b. allocated b ≡ true) u (λ ne h. x.spare_allocated u h);
      spare_next = λ u.
          kept_spare (λ b. update next (node last) (spare t) b ≡ 0) u
            (λ ne h.
              update-ne next (node last) (spare u) (spare t) (x.spare_apart u last h (omega arith))
              ∙ x.spare_next u h);
      spare_apart = λ u k h le.
          kept_spare (λ b. longer k ≢ b) u
            (λ ne h'.
              node-cases (λ c. c ≢ spare u) k le (λ e q. ne (x.spares_apart t u nz q))
                (λ old. x.spare_apart u k h' old))
            h;
      spares_apart = λ u w h.
          kept_spare (λ b. b ≡ update spare t 0 w → u ≡ w) u
            (λ ne h' q. x.spares_apart u w h' (same_spare u w h' q)) h;
    }
      where
        same_spare : (u w : ℕ) → spare u ≢ 0 → spare u ≡ update spare t 0 w → spare u ≡ spare w
        same_spare u w h q = elim (ℕ_discrete t w) [
          | yes e ↦ absurd (h (q ∙ update-eq spare t w 0 e))
          | no ne ↦ q ∙ update-ne spare t w 0 ne
        ]
