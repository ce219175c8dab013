-- ===== src/Graph/Queue.antt =====
-- What one round of the recursive query keeps: the rows met, the rows queued, and the rounds that
-- are still needed.
use vera_mmu.Common.{
  Eq, ◌==◌, ◌≡◌, ◌≤◌, ◌+◌, ◌<◌, ◌||◌, refl, true, false, ℕ, List, [], ◌∷◌, length, length-append,
  contains, contains-append, arith, if◌then◌else◌,
}
use vera_mmu.Graph.{Edges, targets, offer, enqueue}

module _ {ℓ} {A : Type ℓ} ⦃e : Eq A⦄ where
  contains-offer :
      (r : A) (st : List A × List A) (x : A)
      → contains (offer r st).0 x ≡ (r == x || contains st.0 x)
  unfolding offer
  contains-offer r st x = ground (arith, e.same_iff r x)

  -- what was seen and is no longer queued was so before
  settled-offer :
      (r : A) (st : List A × List A) (x : A)
      → contains (offer r st).0 x ≡ true
      → contains (offer r st).1 x ≡ false
      → (contains st.0 x ≡ true) × (contains st.1 x ≡ false)
  unfolding offer
  settled-offer r st x s q = ground (arith, e.same_iff r x, contains-append st.1 (r ∷ []) x)

  queued-offer :
      (r : A) (st : List A × List A)
      → ((x : A) → contains st.1 x ≡ true → contains st.0 x ≡ true)
      → (x : A) → contains (offer r st).1 x ≡ true
      → contains (offer r st).0 x ≡ true
  unfolding offer
  queued-offer r st h x q = ground (arith, h x, contains-append st.1 (r ∷ []) x)

  -- how many edges have a target that was not met yet
  pub unseen : Edges A → List A → ℕ
  unseen [] seen = 0
  unseen ((a, b) ∷ es) seen = (if contains seen b then 0 else 1) + unseen es seen

  pub unseen-nil : (es : Edges A) → unseen es [] ≡ length es
  unfolding unseen contains
  unseen-nil [] = refl
  unseen-nil (x ∷ es) = omega (arith, unseen-nil es)

  unseen-cons-le : (es : Edges A) (r : A) (seen : List A) → unseen es (r ∷ seen) ≤ unseen es seen
  unfolding unseen contains
  unseen-cons-le [] r seen = omega arith
  unseen-cons-le ((a, b) ∷ es) r seen = ground (arith, unseen-cons-le es r seen)

  pub unseen_mono :
      (es : Edges A) (old new : List A)
      → ((x : A) → contains old x ≡ true → contains new x ≡ true)
      → unseen es new ≤ unseen es old
  unfolding unseen
  unseen_mono [] old new h = omega arith
  unseen_mono ((a, b) ∷ es) old new h = ground (arith, h b, unseen_mono es old new h)

  -- a new target of an edge is one unseen edge fewer
  pub unseen-cons-lt :
      (es : Edges A) (u r : A) (seen : List A)
      → contains (targets u es) r ≡ true
      → contains seen r ≡ false
      → unseen es (r ∷ seen) < unseen es seen
  unfolding unseen contains targets
  unseen-cons-lt [] u r seen t n = ground arith
  unseen-cons-lt ((a, b) ∷ es) u r seen t n =
      ground (
        arith,
        unseen-cons-lt es u r seen,
        unseen-cons-le es r seen,
        e.same_iff b r,
        e.same_iff r b,
      )

  -- rounds that a state still needs
  abbrev pub cost : Edges A → List A × List A → ℕ
  cost es st = length st.1 + unseen es st.0

  cost-offer :
      (es : Edges A) (u r : A) (st : List A × List A)
      → contains (targets u es) r ≡ true
      → cost es (offer r st) ≤ cost es st
  unfolding offer
  cost-offer es u r st t = ground (arith, unseen-cons-lt es u r st.0 t, length-append st.1 (r ∷ []))

  pub contains-enqueue :
      (rows : List A) (st : List A × List A) (x : A)
      → contains (enqueue rows st).0 x ≡ (contains rows x || contains st.0 x)
  unfolding enqueue contains
  contains-enqueue [] st x = refl
  contains-enqueue (r ∷ rows) st x =
      ground (arith, contains-enqueue rows (offer r st) x, contains-offer r st x)

  pub settled-enqueue :
      (rows : List A) (st : List A × List A) (x : A)
      → contains (enqueue rows st).0 x ≡ true
      → contains (enqueue rows st).1 x ≡ false
      → (contains st.0 x ≡ true) × (contains st.1 x ≡ false)
  unfolding enqueue
  settled-enqueue [] st x s q = (s, q)
  settled-enqueue (r ∷ rows) st x s q =
      let (s', q') = settled-enqueue rows (offer r st) x s q in settled-offer r st x s' q'

  pub queued-enqueue :
      (rows : List A) (st : List A × List A)
      → ((x : A) → contains st.1 x ≡ true → contains st.0 x ≡ true)
      → (x : A) → contains (enqueue rows st).1 x ≡ true
      → contains (enqueue rows st).0 x ≡ true
  unfolding enqueue
  queued-enqueue [] st h = h
  queued-enqueue (r ∷ rows) st h = queued-enqueue rows (offer r st) (queued-offer r st h)

  pub cost-enqueue :
      (es : Edges A) (u : A) (rows : List A) (st : List A × List A)
      → ((x : A) → contains rows x ≡ true → contains (targets u es) x ≡ true)
      → cost es (enqueue rows st) ≤ cost es st
  unfolding enqueue contains
  cost-enqueue es u [] st h = omega arith
  cost-enqueue es u (r ∷ rows) st h = omega (
    arith,
    cost-offer es u r st (h r (ground (arith, e.same_iff r r))),
    cost-enqueue es u rows (offer r st) (λ x t. h x (ground (arith, t))),
  )
