-- ===== src/Graph/Reach.antt =====
-- The relation that the queries compute: a walk of at least one edge.
use vera_mmu.Common.{Eq, ◌≡◌, true, contains}
use vera_mmu.Graph.{Edges, targets}

module _ {ℓ} {A : Type ℓ} ⦃e : Eq A⦄ where
  abbrev pub Edge : Edges A → A → A → Type 0
  Edge es a b = contains (targets a es) b ≡ true

  pub data Reach (es : Edges A) (a : A) : A → Type ℓ where
    edge : {b : A} → Edge es a b → Reach es a b
    step : {b c : A} → Reach es a b → Edge es b c → Reach es a c
