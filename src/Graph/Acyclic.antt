-- ===== src/Graph/Acyclic.antt =====
-- An edge whose target does not reach its source closes no cycle.
use vera_mmu.Common.{
  Eq, ◌≡◌, ◌≢◌, ◌⊎◌, refl, inl, inr, true, false, [], ◌∷◌, ◌++◌, contains, contains-append,
  Bool-cases, arith, subst, sym, ◌∙◌,
}
use vera_mmu.Graph.{Edges, targets, closure}
use vera_mmu.Graph.Reach.{Edge, Reach, edge, step}
use vera_mmu.Graph.Closure.{closure_exact}

module _ {ℓ} {A : Type ℓ} ⦃e : Eq A⦄ where
  -- no walk of at least one edge leads from a node back to it
  abbrev pub IsAcyclic : Edges A → Type ℓ
  IsAcyclic es = (x : A) → Reach es x x → ⊥

  pub nil-IsAcyclic : IsAcyclic []
  unfolding targets contains
  nil-IsAcyclic x (edge t) = cc
  nil-IsAcyclic x (step r t) = cc

  pub Reach-trans : {es : Edges A} {a b c : A} → Reach es a b → Reach es b c → Reach es a c
  Reach-trans r (edge t) = step r t
  Reach-trans r (step q t) = step (Reach-trans r q) t

  -- `a` is `b`, or reaches it
  abbrev Meets : Edges A → A → A → Type ℓ
  Meets es a b = (a ≡ b) ⊎ Reach es a b

  targets-append : (es fs : Edges A) (u : A) → targets u (es ++ fs) ≡ targets u es ++ targets u fs
  unfolding targets
  targets-append [] fs u = refl
  targets-append ((a, b) ∷ es) fs u = ground (arith, targets-append es fs u)

  module _ (es : Edges A) (d p : A) where
    -- an edge of the longer table is an old one, or the new one
    Edge-cases : (x y : A) → Edge (es ++ (d, p) ∷ []) x y → Edge es x y ⊎ ((x ≡ d) × (y ≡ p))
    unfolding targets contains
    Edge-cases x y t = elim (Bool-cases (contains (targets x es) y)) [
      | inl old ↦ inl old
      | inr new ↦
          let split : contains (targets x es ++ targets x ((d, p) ∷ [])) y ≡ true =
            subst (λ l. contains l y ≡ true) (targets-append es ((d, p) ∷ []) x) t in
          inr (
            ground
                (arith, contains-append (targets x es) (targets x ((d, p) ∷ [])) y, e.same_iff d x),
            ground
                (arith, contains-append (targets x es) (targets x ((d, p) ∷ [])) y, e.same_iff p y),
          )
    ]

    Meets-step : (x y : A) → Meets es p x → Edge es x y → Meets es p y
    Meets-step x y (inl same) t = inr (edge (subst (λ (z : A). Edge es z y) (sym same) t))
    Meets-step x y (inr r) t = inr (step r t)

    -- a walk of the longer table is an old one, or passes the new edge
    Reach-cases :
        (x y : A) → Reach (es ++ (d, p) ∷ []) x y → Reach es x y ⊎ (Meets es x d × Meets es p y)
    Reach-cases x y (edge t) = elim (Edge-cases x y t) [
      | inl old ↦ inl (edge old)
      | inr (from, to) ↦ inr (inl from, inl (sym to))
    ]
    Reach-cases x y (step {b = b} r t) = elim (Reach-cases x b r) [
      | inl old ↦ elim (Edge-cases b y t) [
        | inl e' ↦ inl (step old e')
        | inr (from, to) ↦ inr (inr (subst (λ (z : A). Reach es x z) from old), inl (sym to))
      ]
      | inr (before, after) ↦ elim (Edge-cases b y t) [
        | inl e' ↦ inr (before, Meets-step b y after e')
        | inr (from, to) ↦ inr (before, inl (sym to))
      ]
    ]

    Meets-trans : (x : A) → Meets es p x → Meets es x d → Meets es p d
    Meets-trans x (inl a) (inl b) = inl (a ∙ b)
    Meets-trans x (inl a) (inr r) = inr (subst (λ (z : A). Reach es z d) (sym a) r)
    Meets-trans x (inr q) (inl b) = inr (subst (λ (z : A). Reach es p z) b q)
    Meets-trans x (inr q) (inr r) = inr (Reach-trans q r)

    no_back_walk : d ≢ p → contains (closure es p) d ≡ false → Meets es p d → ⊥
    no_back_walk ne free (inl same) = ne (sym same)
    no_back_walk ne free (inr r) = cc ((closure_exact es p d).1 r)

    -- The test that the services make before they insert an edge keeps the table acyclic.
    pub append-IsAcyclic :
        IsAcyclic es → d ≢ p → contains (closure es p) d ≡ false → IsAcyclic (es ++ (d, p) ∷ [])
    append-IsAcyclic acyclic ne free x r = elim (Reach-cases x x r) [
      | inl old ↦ acyclic x old
      | inr (before, after) ↦ no_back_walk ne free (Meets-trans x after before)
    ]
