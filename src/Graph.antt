-- ===== src/Graph.antt =====
-- Directed graphs stored as rows of (source, target), and the closed set of what a node reaches.
-- `closure` is the query `WITH RECURSIVE r(id) AS (SELECT target … WHERE source = ? UNION SELECT
-- target … JOIN r ON source = r.id)` of `src/vera_mmu/gates.py` and `src/vera_mmu/supersession.py`:
-- a queue of rows that are still to be joined, and the rows met so far, without duplicates.
pub mod Reach
pub mod Queue
pub mod Closure
pub mod Acyclic
use vera_mmu.Common.{
  ℕ, List, [], ◌∷◌, ◌++◌, map, zero, suc, length, where_rows, Eq, ◌==◌, contains, if◌then◌else◌,
}

abbrev pub Edges {ℓ} : Type ℓ → Type ℓ
Edges A = List (A × A)

module _ {ℓ} {A : Type ℓ} ⦃e : Eq A⦄ where
  -- `SELECT target FROM edges WHERE source = u`
  unfoldable pub targets : A → Edges A → List A
  targets u [] = []
  targets u ((a, b) ∷ es) = let rest = targets u es in if a == u then b ∷ rest else rest

  -- `UNION` keeps a row that was not met before, and queues it.
  unfoldable pub offer : A → List A × List A → List A × List A
  unfolding contains
  offer r (seen, queue) = if contains seen r then (seen, queue) else (r ∷ seen, queue ++ r ∷ [])

  unfoldable pub enqueue : List A → List A × List A → List A × List A
  unfolding offer
  enqueue [] st = st
  enqueue (r ∷ rows) st = enqueue rows (offer r st)

  -- One round takes a row off the queue; the fuel bounds the rounds.
  unfoldable pub saturate : ℕ → Edges A → List A → List A → List A
  unfolding targets enqueue
  saturate zero es seen queue = seen
  saturate (suc f) es seen [] = seen
  saturate (suc f) es seen (u ∷ queue) =
      let (seen', queue') = enqueue (targets u es) (seen, queue) in saturate f es seen' queue'

  -- Every row is queued at most once, so as many rounds as there are edges are enough.
  unfoldable pub closure : Edges A → A → List A
  unfolding saturate
  closure es s =
      let (seen, queue) = enqueue (targets s es) ([], []) in saturate (length es) es seen queue
