-- ===== src/Graph/Closure.antt =====
-- The recursive query returns exactly the nodes that a walk of at least one edge reaches, and the
-- rounds that it is given are enough.
use vera_mmu.Common.{
  Eq, ◌==◌, ◌≡◌, ◌≤◌, ◌↔◌, refl, inl, inr, true, false, ℕ, zero, suc, List, [], ◌∷◌, contains,
  Bool-cases, arith, subst,
}
use vera_mmu.Graph.{Edges, targets, enqueue, saturate, closure}
use vera_mmu.Graph.Reach.{Edge, Reach, edge, step}
use vera_mmu.Graph.Queue.{
  contains-enqueue, settled-enqueue, queued-enqueue, cost, cost-enqueue, unseen-nil,
}

module _ {ℓ} {A : Type ℓ} ⦃e : Eq A⦄ where
  abbrev Queued : List A → List A → Type ℓ
  Queued seen queue = (x : A) → contains queue x ≡ true → contains seen x ≡ true

  -- every row that has left the queue was joined
  abbrev Settled : Edges A → List A → List A → Type ℓ
  Settled es seen queue =
      (x y : A)
      → contains seen x ≡ true
      → contains queue x ≡ false
      → Edge es x y
      → contains seen y ≡ true

  saturate_sound :
      (s : A) (f : ℕ) (es : Edges A) (seen queue : List A)
      → ((x : A) → contains seen x ≡ true → Reach es s x)
      → Queued seen queue
      → (x : A) → contains (saturate f es seen queue) x ≡ true
      → Reach es s x
  unfolding saturate contains
  saturate_sound s zero es seen queue r q = r
  saturate_sound s (suc f) es seen [] r q = r
  saturate_sound s (suc f) es seen (u ∷ queue) r q =
      let st = enqueue (targets u es) (seen, queue) in
      saturate_sound s f es st.0 st.1
        (λ x h. elim (Bool-cases (contains (targets u es) x)) [
          | inl t ↦ step (r u (q u (ground (arith, e.same_iff u u)))) t
          | inr n ↦ r x (ground (arith, contains-enqueue (targets u es) (seen, queue) x))
        ])
        (queued-enqueue (targets u es) (seen, queue) (λ x h. q x (ground (arith, h))))

  saturate-keeps :
      (f : ℕ) (es : Edges A) (seen queue : List A) (x : A)
      → contains seen x ≡ true
      → contains (saturate f es seen queue) x ≡ true
  unfolding saturate
  saturate-keeps zero es seen queue x h = h
  saturate-keeps (suc f) es seen [] x h = h
  saturate-keeps (suc f) es seen (u ∷ queue) x h =
      let st = enqueue (targets u es) (seen, queue) in
      saturate-keeps f es st.0 st.1 x
        (ground (arith, contains-enqueue (targets u es) (seen, queue) x))

  Settled-round :
      (es : Edges A) (u : A) (seen queue : List A)
      → Settled es seen (u ∷ queue)
      → (let st = enqueue (targets u es) (seen, queue) in Settled es st.0 st.1)
  unfolding contains
  Settled-round es u seen queue k x y s q t =
      let (s', q') = settled-enqueue (targets u es) (seen, queue) x s q in
      elim (Bool-cases (u == x)) [
        | inl same ↦
            let at : contains (targets u es) y ≡ true =
              subst (λ (z : A). contains (targets z es) y ≡ true) (ground (arith, e.same_iff u x))
                t in
            ground (arith, contains-enqueue (targets u es) (seen, queue) y)
        | inr other ↦
            let old = k x y s' (ground arith) t in
            ground (arith, contains-enqueue (targets u es) (seen, queue) y)
      ]

  saturate-closed :
      (f : ℕ) (es : Edges A) (seen queue : List A)
      → cost es (seen, queue) ≤ f
      → Settled es seen queue
      → (x y : A) → contains (saturate f es seen queue) x ≡ true
      → Edge es x y
      → contains (saturate f es seen queue) y ≡ true
  unfolding saturate contains
  saturate-closed zero es seen [] c k x y h t = k x y h refl t
  saturate-closed zero es seen (u ∷ queue) c k x y h t = absurd (omega arith)
  saturate-closed (suc f) es seen [] c k x y h t = k x y h refl t
  saturate-closed (suc f) es seen (u ∷ queue) c k x y h t =
      let st = enqueue (targets u es) (seen, queue) in
      saturate-closed f es st.0 st.1
        (omega (arith, cost-enqueue es u (targets u es) (seen, queue) (λ x t. t)))
        (Settled-round es u seen queue k) x y h t

  closure_sound : (es : Edges A) (s x : A) → contains (closure es s) x ≡ true → Reach es s x
  unfolding closure contains
  closure_sound es s x h =
      let st = enqueue (targets s es) ([], []) in
      saturate_sound s _ es st.0 st.1
        (λ x t. edge (ground (arith, contains-enqueue (targets s es) ([], []) x)))
        (queued-enqueue (targets s es) ([], []) (λ x h. h)) x h

  closure_complete : (es : Edges A) (s x : A) → Reach es s x → contains (closure es s) x ≡ true
  unfolding closure contains
  closure_complete es s x (edge t) =
      let st = enqueue (targets s es) ([], []) in
      saturate-keeps _ es st.0 st.1 x (ground (arith, contains-enqueue (targets s es) ([], []) x))
  closure_complete es s x (step {b = b} r t) =
      let st = enqueue (targets s es) ([], []) in
      saturate-closed _ es st.0 st.1
        (omega (arith, cost-enqueue es s (targets s es) ([], []) (λ x t. t), unseen-nil es))
        (λ x y a b t. cc ((settled-enqueue (targets s es) ([], []) x a b).0)) b x
        (closure_complete es s b r) t

  -- The recursive query from `s` returns `x` exactly when a walk of at least one edge leads from
  -- `s` to `x`, whatever the edges, cyclic ones included.
  pub closure_exact : (es : Edges A) (s x : A) → (contains (closure es s) x ≡ true) ↔ Reach es s x
  closure_exact es s x = (closure_sound es s x, closure_complete es s x)
