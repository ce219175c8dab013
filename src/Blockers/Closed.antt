-- ===== src/Blockers/Closed.antt =====
-- The search of src/vera_mmu/work_blockers.py sees all that a walk of prerequisites reaches: each call of
-- `visit` marks a row that was not seen, so that the fuel lasts.
use vera_mmu.Common.{
  ℕ, zero, suc, ◌<◌, ◌≤◌, String, true, false, ◌==◌, text_Eq, text_iff, ◌≡◌, refl, ◌∙◌, sym, subst,
  List, [], ◌∷◌, ◌++◌, length, map, where_rows, contains, arith, Bool-cases, inl, inr,
}
use vera_mmu.Common.Order.{contains-order_by}
use vera_mmu.Graph.{targets}
use vera_mmu.Graph.Reach.{Reach, edge, step}
use vera_mmu.Graph.Queue.{unseen, unseen-nil, unseen_mono, unseen-cons-lt}
use vera_mmu.Store.{Tables}
use vera_mmu.Store.Rows.{Dependency}
use vera_mmu.WorkGraph.{dependency_edges, as_edge}
use vera_mmu.Readiness.{prerequisites}
use vera_mmu.Blockers.{Visited, visit, visit_each, blocker_of}
use vera_mmu.Blockers.Visits.{
  IsVisit, contains-cons, contains-head, visit_each-IsVisit, visit-IsVisit, visit_each-seen,
}

rows-targets :
    (ds : List Dependency) (y x : String)
    → contains
        (map (λ (d : Dependency). d.prerequisite_id) (where_rows (λ d. d.dependent_id == y) ds))
        x
      ≡ contains (targets y (map as_edge ds)) x
unfolding where_rows targets contains
rows-targets [] y x = refl
rows-targets (d ∷ ds) y x = ground (arith, rows-targets ds y x)

module _ (t : Tables) where
  -- the rows of the query are the edges of the work graph
  pub prerequisites-edge :
      (y x : String) → contains (prerequisites t y) x ≡ contains (targets y (dependency_edges t)) x
  unfolding prerequisites dependency_edges
  prerequisites-edge y x =
      contains-order_by
        (map (λ (d : Dependency). d.prerequisite_id)
          (where_rows (λ d. d.dependent_id == y) t.dependencies))
        x
      ∙ rows-targets t.dependencies y x

  -- every prerequisite of what was newly seen is seen
  abbrev IsClosed : List String → List String → Type 0
  IsClosed old new =
      (x : String)
      → contains new x ≡ true
      → contains old x ≡ false
      → (z : String) → contains (prerequisites t x) z ≡ true
      → contains new z ≡ true

  -- how many rows still name a prerequisite that was not seen
  abbrev left : List String → ℕ
  left seen = unseen (dependency_edges t) seen

  -- with enough fuel a call sees all below its item
  abbrev SeesBelow : (String → Visited → Visited) → ℕ → Type 0
  SeesBelow deeper fuel =
      (p : String) (w : Visited)
      → left w.0 < fuel
      → ((z : String) → contains (prerequisites t p) z ≡ true → contains (deeper p w).0 z ≡ true)
        × IsClosed w.0 (deeper p w).0

  IsClosed-trans :
      (p : String) (seen middle new : List String)
      → ((x : String) → contains middle x ≡ true → contains new x ≡ true)
      → ((z : String) → contains (prerequisites t p) z ≡ true → contains middle z ≡ true)
      → IsClosed (p ∷ seen) middle
      → IsClosed middle new
      → IsClosed seen new
  unfolding contains
  IsClosed-trans p seen middle new grows below inner outer x in_new fresh z m =
      elim (Bool-cases (contains middle x)) [
        | inr unmet ↦ outer x in_new unmet z m
        | inl met ↦ elim (Bool-cases (p == x)) [
          | inl same ↦ grows z (
              below z (
                subst (λ y. contains (prerequisites t y) z ≡ true) (sym ((text_iff p x).0 same)) m))
          | inr other ↦ grows z (inner x met (ground (arith, fresh, other)) z m)
        ]
      ]

  visit_each-IsClosed :
      (deeper : String → Visited → Visited) (fuel : ℕ) (id : String) (ps : List String)
      (v : Visited)
      → ((p : String) → IsVisit t (deeper p))
      → SeesBelow deeper fuel
      → ((p : String) → contains ps p ≡ true → contains (prerequisites t id) p ≡ true)
      → left v.0 ≤ fuel
      → IsClosed v.0 (visit_each deeper t ps v).0
  unfolding visit_each
  visit_each-IsClosed deeper fuel id [] v keeps below rows enough = λ x in_new fresh. cc
  visit_each-IsClosed deeper fuel id (p ∷ ps) (seen, found) keeps below rows enough =
      let later = λ (q : String) (m : contains ps q ≡ true). rows q (contains-cons t ps p q m) in
      elim (Bool-cases (contains seen p)) [
        | inl old ↦
            rw old (visit_each-IsClosed deeper fuel id ps (seen, found) keeps below later enough)
        | inr new ↦
            let marked : Visited = (p ∷ seen, found ++ blocker_of t p) in
            let fewer : left (p ∷ seen) < left seen =
              unseen-cons-lt (dependency_edges t) id p seen
                (sym (prerequisites-edge id p) ∙ rows p (contains-head t ps p)) new in
            let call = below p marked (omega (arith, fewer, enough)) in
            let middle = (deeper p marked).0 in
            let shrinks : left middle ≤ left (p ∷ seen) =
              unseen_mono (dependency_edges t) (p ∷ seen) middle ((keeps p).keeps_seen marked) in
            rw new (
              IsClosed-trans p seen middle (visit_each deeper t ps (deeper p marked)).0
                ((visit_each-IsVisit t deeper ps keeps).keeps_seen (deeper p marked)) call.0 call.1
                (visit_each-IsClosed deeper fuel id ps (deeper p marked) keeps below later
                  (omega (arith, shrinks, fewer, enough))))
      ]

  visit-SeesBelow : (fuel : ℕ) → SeesBelow (visit fuel t) fuel
  unfolding visit
  visit-SeesBelow zero p w enough = absurd (omega (arith, enough))
  visit-SeesBelow (suc fuel) p w enough = (
    λ z m. visit_each-seen t (visit fuel t) (prerequisites t p) w z (visit-IsVisit t fuel) m,
    visit_each-IsClosed (visit fuel t) fuel p (prerequisites t p) w (visit-IsVisit t fuel)
        (visit-SeesBelow fuel) (λ q m. m) (omega (arith, enough)),
  )

  -- the whole search sees what a walk reaches
  pub search_complete :
      (fuel : ℕ) (id x : String)
      → length (dependency_edges t) < fuel
      → Reach (dependency_edges t) id x
      → contains (visit fuel t id ([], [])).0 x ≡ true
  unfolding contains
  search_complete fuel id x enough r =
      let start : left [] < fuel = omega (arith, unseen-nil (dependency_edges t), enough) in
      let (first, closed) = visit-SeesBelow fuel id ([], []) start in
      walk (visit fuel t id ([], [])).0 first (λ y m. closed y m refl) x r
    where
      walk :
          (new : List String)
          → ((z : String) → contains (prerequisites t id) z ≡ true → contains new z ≡ true)
          → ((y : String)
              → contains new y ≡ true
              → (z : String) → contains (prerequisites t y) z ≡ true
              → contains new z ≡ true)
          → (x : String) → Reach (dependency_edges t) id x
          → contains new x ≡ true
      walk new first closed x (edge e) = first x (prerequisites-edge id x ∙ e)
      walk new first closed x (step {b = b} r e) =
          closed b (walk new first closed b r) x (prerequisites-edge b x ∙ e)
